-- ===== src/Effects/AtMost.antt =====
-- At most so many of the requests of any run pass a test.
use netbox_monitor.Prelude.{
  ℕ, suc, ◌+◌, ◌≤◌, ◌<◌, ◌≡◌, refl, Bool, true, false, List, [], ◌∷◌, arith, if◌then◌else◌,
  Bool-cases, ◌⊎◌, inl, inr, either,
}
use netbox_monitor.Wire.Request.{Request, Reply, Answer, Exn, answered, failed}
use netbox_monitor.Effects.{Prog, pure, raise, call, try_catch, ask, ◌>>=◌}
use netbox_monitor.Effects.Only.{Only, only_call}
use netbox_monitor.Effects.Run.{Environment, run}

pub data AtMost (test : Request → Bool) {A : Type 0} : ℕ → Prog A → Type 0 where
  at_most_pure : {n : ℕ} (a : A) → AtMost test n (pure a)
  at_most_raise : {n : ℕ} (e : Exn) → AtMost test n (raise e)
  at_most_free :
      {n : ℕ} (r : Request) (k : Answer (Reply r) → Prog A)
      → test r ≡ false
      → ((x : Answer (Reply r)) → AtMost test n (k x))
      → AtMost test n (call r k)
  at_most_counted :
      {n : ℕ} (r : Request) (k : Answer (Reply r) → Prog A) (m : ℕ)
      → m < n
      → ((x : Answer (Reply r)) → AtMost test m (k x))
      → AtMost test n (call r k)

abbrev pub count : (Request → Bool) → List Request → ℕ
count test [] = 0
count test (r ∷ rs) = (if test r then 1 else 0) + count test rs

module _ {test : Request → Bool} where
  pub AtMost-weaken :
      {A : Type 0} (n m : ℕ) (p : Prog A) → n ≤ m → AtMost test n p → AtMost test m p
  AtMost-weaken n m (pure a) l h = at_most_pure a
  AtMost-weaken n m (raise e) l h = at_most_raise e
  AtMost-weaken n m (call r k) l (at_most_free _ _ f h) =
      at_most_free r k f (λ x. AtMost-weaken n m (k x) l (h x))
  AtMost-weaken n m (call r k) l (at_most_counted _ _ i lt h) =
      at_most_counted r k i (omega arith) h

  pub AtMost-bind :
      {A B : Type 0} (n m : ℕ) (p : Prog A) (f : A → Prog B)
      → AtMost test n p
      → ((a : A) → AtMost test m (f a))
      → AtMost test (n + m) (p >>= f)
  unfolding ◌>>=◌
  AtMost-bind n m (pure a) f h g = AtMost-weaken m (n + m) (f a) (omega arith) (g a)
  AtMost-bind n m (raise e) f h g = at_most_raise e
  AtMost-bind n m (call r k) f (at_most_free _ _ t h) g =
      at_most_free r _ t (λ x. AtMost-bind n m (k x) f (h x) g)
  AtMost-bind n m (call r k) f (at_most_counted _ _ i lt h) g =
      at_most_counted r _ (i + m) (omega arith) (λ x. AtMost-bind i m (k x) f (h x) g)

  pub AtMost-try_catch :
      {A : Type 0} (n m : ℕ) (p : Prog A) (handler : Exn → Prog A)
      → AtMost test n p
      → ((e : Exn) → AtMost test m (handler e))
      → AtMost test (n + m) (try_catch p handler)
  unfolding try_catch
  AtMost-try_catch n m (pure a) f h g = at_most_pure a
  AtMost-try_catch n m (raise e) f h g = AtMost-weaken m (n + m) (f e) (omega arith) (g e)
  AtMost-try_catch n m (call r k) f (at_most_free _ _ t h) g =
      at_most_free r _ t (λ x. AtMost-try_catch n m (k x) f (h x) g)
  AtMost-try_catch n m (call r k) f (at_most_counted _ _ i lt h) g =
      at_most_counted r _ (i + m) (omega arith) (λ x. AtMost-try_catch i m (k x) f (h x) g)

  -- a program that makes no such request, and then another
  pub AtMost-then :
      {A B : Type 0} {n : ℕ} (p : Prog A) (f : A → Prog B)
      → AtMost test 0 p
      → ((a : A) → AtMost test n (f a))
      → AtMost test n (p >>= f)
  AtMost-then {n = n} p f h g =
      AtMost-weaken (0 + n) n (p >>= f) (omega arith) (AtMost-bind 0 n p f h g)

  pub AtMost-either :
      {A B C : Type 0} {n : ℕ} (o : A ⊎ B) (f : A → Prog C) (g : B → Prog C)
      → ((a : A) → AtMost test n (f a))
      → ((b : B) → AtMost test n (g b))
      → AtMost test n (either o f g)
  AtMost-either (inl a) f g hf hg = hf a
  AtMost-either (inr b) f g hf hg = hg b

  pub AtMost-if :
      {A : Type 0} {n : ℕ} (b : Bool) (p q : Prog A)
      → (b ≡ true → AtMost test n p)
      → (b ≡ false → AtMost test n q)
      → AtMost test n (if b then p else q)
  AtMost-if true p q hp hq = hp refl
  AtMost-if false p q hp hq = hq refl

  pub AtMost-ask : (n : ℕ) (r : Request) → AtMost test (suc n) (ask r)
  unfolding ask
  AtMost-ask n r =
      at_most_counted r _ n (omega arith)
        (elim [ answered a ↦ at_most_pure a | failed e ↦ at_most_raise e ])

  -- a program none of whose requests passes the test
  pub AtMost-none :
      {P : Request → Type 0} {A : Type 0} (n : ℕ) (p : Prog A)
      → ((r : Request) → P r → test r ≡ false)
      → Only P p
      → AtMost test n p
  AtMost-none n (pure a) w h = at_most_pure a
  AtMost-none n (raise e) w h = at_most_raise e
  AtMost-none n (call r k) w (only_call _ _ q h) =
      at_most_free r k (w r q) (λ x. AtMost-none n (k x) w (h x))

  pub AtMost-run :
      {S A : Type 0} (env : Environment S) (n : ℕ) (p : Prog A) (s : S)
      → AtMost test n p
      → count test (run env p s).trace ≤ n
  unfolding run
  AtMost-run env n (pure a) s h = omega arith
  AtMost-run env n (raise e) s h = omega arith
  AtMost-run env n (call r k) s (at_most_free _ _ f h) =
      let x = (env.answer r s).0 in
      rw f (omega (arith, AtMost-run env n (k x) (env.answer r s).1 (h x)))
  AtMost-run env n (call r k) s (at_most_counted _ _ i lt h) =
      let x = (env.answer r s).0 in
      let rest = AtMost-run env i (k x) (env.answer r s).1 (h x) in
      elim (Bool-cases (test r)) [
        | inl e ↦ rw e (omega (arith, rest))
        | inr e ↦ rw e (omega (arith, rest))
      ]

pub ruleset at_most_rules = (at_most_pure, at_most_raise, AtMost-if, AtMost-either, AtMost-then)
