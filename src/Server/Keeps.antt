-- ===== src/Server/Keeps.antt =====
-- Steps of the signaling server that keep its tables sound, and their composition.
use peer_bridge_cli.Common.{Bool, true, false, Option, none, some, if◌then◌else◌}
use peer_bridge_cli.Server.State.{Python, Server, M, resume, recover, ◌>>=◌}
use peer_bridge_cli.Server.Tables.{IsSound}

module _ {V : Type 0} (py : Python V) where
  -- A step that keeps the tables sound.
  abbrev pub Keeps : {A : Type 0} → M V A → Type 0
  Keeps m = (s : Server V) → IsSound py s → IsSound py (m s).0

  pub resume-IsSound :
      {A B : Type 0} (p : Server V × Option A) (f : A → M V B)
      → IsSound py p.0
      → ((a : A) → Keeps (f a))
      → IsSound py (resume p f).0
  resume-IsSound (s, none) f v k = v
  resume-IsSound (s, some a) f v k = k a s v

  pub recover-IsSound :
      {A : Type 0} (p : Server V × Option A) (h : M V A)
      → IsSound py p.0
      → Keeps h
      → IsSound py (recover p h).0
  recover-IsSound (s, none) h v k = k s v
  recover-IsSound (s, some a) h v k = v

  pub Keeps-bind :
      {A B : Type 0} (m : M V A) (f : A → M V B)
      → Keeps m
      → ((a : A) → Keeps (f a))
      → Keeps (m >>= f)
  Keeps-bind m f h k s v = resume-IsSound (m s) f (h s v) k

  -- The same as a record, by which the two branches are found.
  pub record Kept (m : M V (Unit {0})) : Type 0 where
    pub apply : Keeps m

  pub Kept-if : (b : Bool) (m n : M V (Unit {0})) → Keeps m → Kept n → Kept (if b then m else n)
  Kept-if true m n h k = record { apply = h }
  Kept-if false m n h k = k

  pub Keeps-option :
      {A B : Type 0} (o : Option A) (n : M V B) (f : A → M V B)
      → Keeps n
      → ((a : A) → Keeps (f a))
      → Keeps (elim o [ none ↦ n | some a ↦ f a ])
  Keeps-option none n f h k = h
  Keeps-option (some a) n f h k = k a
