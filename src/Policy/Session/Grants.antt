-- ===== src/Policy/Session/Grants.antt =====
-- What the session grants authorise, and that a grant reaches no other process, file or direction.
use mathlib.Core.Option
use file_guard.Prelude.{
  ◌≡◌, refl, ◌∙◌, ◌↔◌, ◌⊎◌, true, ◌&&◌, ◌||◌, Option, none, some, List, [], ◌∷◌, arith, ◌==◌, ℕ_eq,
  Bytes_eq, Option_Bytes_eq, Bool_eq,
}
use file_guard.Files.FilePath.{FilePath, components, ◌=path=◌, =path=-iff}
use file_guard.Policy.Rule.{Access, any_access, Access_eq}
use file_guard.Policy.Session.{
  ProcessId, script_eq, process_id_eq, GrantKey, grant_key_eq, SessionState, contains,
  grant_session, is_session_allowed,
}

-- The same executable image of the same process instance.
pub record SameProcess (p q : ProcessId) : Type 0 where
  pub pid : p.pid ≡ q.pid
  pub start_time : p.start_time ≡ q.start_time
  pub binary_path : components p.binary_path ≡ components q.binary_path
  pub binary_sha256 : p.binary_sha256 ≡ q.binary_sha256
  pub script : Option.map components p.script ≡ Option.map components q.script

script_eq_iff :
    (p q : Option FilePath)
    → (script_eq p q ≡ true) ↔ (Option.map components p ≡ Option.map components q)
unfolding script_eq
script_eq_iff none none = ground arith
script_eq_iff none (some q) = ground arith
script_eq_iff (some p) none = ground arith
script_eq_iff (some p) (some q) = ground (arith, =path=-iff p q)

pub process_id_eq-SameProcess : (p q : ProcessId) → process_id_eq p q ≡ true → SameProcess p q
unfolding process_id_eq
process_id_eq-SameProcess p q =
    ground (arith, =path=-iff p.binary_path q.binary_path, script_eq_iff p.script q.script)

SameProcess-process_id_eq : (p q : ProcessId) → SameProcess p q → process_id_eq p q ≡ true
unfolding process_id_eq
SameProcess-process_id_eq p q h =
    ground (arith, =path=-iff p.binary_path q.binary_path, script_eq_iff p.script q.script)

pub SameProcess-trans : (p q r : ProcessId) → SameProcess p q → SameProcess q r → SameProcess p r
SameProcess-trans p q r h k = record {
  pid = h.pid ∙ k.pid;
  start_time = h.start_time ∙ k.start_time;
  binary_path = h.binary_path ∙ k.binary_path;
  binary_sha256 = h.binary_sha256 ∙ k.binary_sha256;
  script = h.script ∙ k.script;
}

-- What two equal grants share.
record SameKey (a b : GrantKey) : Type 0 where
  proc : SameProcess a.proc b.proc
  file : components a.file ≡ components b.file
  access : a.access ≡ b.access

grant_key_eq-SameKey : (a b : GrantKey) → grant_key_eq a b ≡ true → SameKey a b
unfolding grant_key_eq
grant_key_eq-SameKey a b h = record {
  proc = process_id_eq-SameProcess a.proc b.proc (ground arith);
  file = (=path=-iff a.file b.file).0 (ground arith);
  access = ground arith;
}

SameKey-grant_key_eq : (a b : GrantKey) → SameKey a b → grant_key_eq a b ≡ true
unfolding grant_key_eq
SameKey-grant_key_eq a b h =
    ground
      (arith, SameProcess-process_id_eq a.proc b.proc h.proc, (=path=-iff a.file b.file).1 h.file)

grant_key_eq_trans :
    (a b c : GrantKey) → grant_key_eq a b ≡ true → grant_key_eq b c ≡ true → grant_key_eq a c ≡ true
grant_key_eq_trans a b c h k =
    let x = grant_key_eq-SameKey a b h in
    let y = grant_key_eq-SameKey b c k in
    SameKey-grant_key_eq a c (record {
      proc = SameProcess-trans a.proc b.proc c.proc x.proc y.proc;
      file = x.file ∙ y.file;
      access = x.access ∙ y.access;
    })

contains_of_eq :
    (grants : List GrantKey) (a b : GrantKey)
    → contains grants a ≡ true
    → grant_key_eq a b ≡ true
    → contains grants b ≡ true
unfolding contains
contains_of_eq [] a b h e = cc
contains_of_eq (g ∷ gs) a b h e = ground (arith, grant_key_eq_trans g a b, contains_of_eq gs a b)

-- One grant adds itself and nothing else.
contains-grant_session :
    (s : SessionState) (p : ProcessId) (f : FilePath) (a : Access) (key : GrantKey)
    → let granted : GrantKey = record { proc = p; file = f; access = a } in
      contains (grant_session s p f a).session_allows key
      ≡ (grant_key_eq granted key || contains s.session_allows key)
unfolding grant_session
contains-grant_session s p f a key =
    ground (arith, contains_of_eq s.session_allows (record { proc = p; file = f; access = a }) key)

granted_eq :
    (p q : ProcessId) (f g : FilePath) (a b : Access)
    → grant_key_eq
        (record { proc = p; file = f; access = a })
        (record { proc = q; file = g; access = b })
      ≡ (process_id_eq p q && (f =path= g) && a == b)
unfolding grant_key_eq
granted_eq p q f g a b = refl

-- After a grant a process is allowed exactly when it was before, or when it is the same image of
-- the same process instance, opens the same file, and asks for the granted direction, or when the
-- grant is for any direction.
pub is_session_allowed-grant_session :
    (s : SessionState) (p q : ProcessId) (f g : FilePath) (a b : Access)
    → (is_session_allowed (grant_session s p f a) q g b ≡ true) ↔ (
        (is_session_allowed s q g b ≡ true)
        ⊎ (SameProcess p q × (components f ≡ components g) × ((a ≡ b) ⊎ (a ≡ any_access))))
unfolding is_session_allowed
is_session_allowed-grant_session s p q f g a b = ground (
  arith,
  contains-grant_session s p f a (record { proc = q; file = g; access = b }),
  contains-grant_session s p f a (record { proc = q; file = g; access = any_access }),
  granted_eq p q f g a b,
  granted_eq p q f g a any_access,
  =path=-iff f g,
  process_id_eq-SameProcess p q,
  SameProcess-process_id_eq p q,
)
