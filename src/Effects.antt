-- ===== src/Effects.antt =====
-- Programs that talk to the outside. A program is a tree of requests: it says what it asks and how
-- it goes on after each possible answer, exceptions included, and nothing about what is answered.
-- What is proved of a tree so holds whatever NetBox, the switches, the clock and the other tasks
-- do between two requests.
pub mod Only
pub mod Run
pub mod Ensures
pub mod AtMost
use netbox_monitor.Prelude.{Bool, Option, none, some, List, [], ◌∷◌, if◌then◌else◌}
use netbox_monitor.Wire.Request.{Request, Reply, Answer, answered, failed, Exn}

pub data Prog (A : Type 0) : Type 0 where
  pure : A → Prog A
  raise : Exn → Prog A
  call : (r : Request) → (Answer (Reply r) → Prog A) → Prog A

module _ {A : Type 0} where
  abbrev pub from_answer : Answer A → Prog A
  from_answer (answered a) = pure a
  from_answer (failed e) = raise e

  -- `try: m except Exception as e: handler(e)`
  unfoldable pub try_catch : Prog A → (Exn → Prog A) → Prog A
  try_catch (pure a) handler = pure a
  try_catch (raise e) handler = handler e
  try_catch (call r k) handler = call r (λ x. try_catch (k x) handler)

unfoldable pub ask : (r : Request) → Prog (Reply r)
ask r = call r from_answer

infixl 10 ◌>>=◌ ◌>>◌
unfoldable pub ◌>>=◌ : {A B : Type 0} → Prog A → (A → Prog B) → Prog B
◌>>=◌ (pure a) f = f a
◌>>=◌ (raise e) f = raise e
◌>>=◌ (call r k) f = call r (λ x. k x >>= f)

abbrev pub ◌>>◌ : {A B : Type 0} → Prog A → Prog B → Prog B
m >> n = m >>= λ _. n

-- `for x in xs: s = body(x, s)`
unfoldable pub for_each : {A S : Type 0} → List A → S → (A → S → Prog S) → Prog S
for_each [] s body = pure s
for_each (x ∷ xs) s body = body x s >>= λ s'. for_each xs s' body
