-- ===== src/Effects/Run.antt =====
-- A run of a program against an environment that answers its requests, and the requests it made.
use netbox_monitor.Prelude.{List, [], ◌∷◌, ◌++◌, All, ◌≡◌, ap, arith}
use netbox_monitor.Wire.Request.{Request, Reply, Answer, answered, failed}
use netbox_monitor.Effects.{Prog, pure, raise, call, ◌>>=◌}
use netbox_monitor.Effects.Only.{Only, only_call}

-- An environment over its own states: any behaviour at all.
pub record Environment (S : Type 0) : Type 0 where
  pub answer : (r : Request) → S → Answer (Reply r) × S

pub record Outcome (S A : Type 0) : Type 0 where
  pub result : Answer A
  pub final : S
  pub trace : List Request

module _ {S A : Type 0} (env : Environment S) where
  unfoldable pub run : Prog A → S → Outcome S A
  run (pure a) s = record { result = answered a; final = s; trace = [] }
  run (raise e) s = record { result = failed e; final = s; trace = [] }
  run (call r k) s =
      let (x, t) = env.answer r s in
      let rest = run (k x) t in
      record { result = rest.result; final = rest.final; trace = r ∷ rest.trace }

  pub All-trace : (P : Request → Type 0) (m : Prog A) (s : S) → Only P m → All P (run m s).trace
  unfolding run
  All-trace P (pure a) s h = tt
  All-trace P (raise e) s h = tt
  All-trace P (call r k) s (only_call _ _ p h) = (p, All-trace P (k _) _ (h _))

-- the value that an answer has
abbrev value_or : {A : Type 0} → A → Answer A → A
value_or d (answered a) = a
value_or d (failed e) = d

-- A run of one program after another, where the first returns.
pub run-bind_trace :
    {S A B : Type 0} (env : Environment S) (m : Prog A) (f : A → Prog B) (a : A) (s : S)
    → (run env m s).result ≡ answered a
    → (run env (m >>= f) s).trace ≡ (run env m s).trace ++ (run env (f a) (run env m s).final).trace
unfolding run ◌>>=◌
run-bind_trace env (pure b) f a s h = ap (λ x. (run env (f (value_or a x)) s).trace) h
run-bind_trace env (raise e) f a s h = absurd (ground (arith, h))
run-bind_trace env (call r k) f a s h = ap (λ t. r ∷ t) (run-bind_trace env (k _) f a _ h)
