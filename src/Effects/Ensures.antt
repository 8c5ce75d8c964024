-- ===== src/Effects/Ensures.antt =====
-- Every value that a program returns satisfies a predicate, whatever is answered. A run that an
-- exception of the outside ends returns no value.
use netbox_monitor.Prelude.{◌≡◌, refl, Bool, true, false, Option, none, some, List, [], ◌∷◌}
use netbox_monitor.Prelude.{if◌then◌else◌, maybe, either, ◌⊎◌, inl, inr}
use netbox_monitor.Wire.Request.{Request, Reply, Answer, answered, failed, Exn}
use netbox_monitor.Effects.{Prog, pure, raise, call, try_catch, ◌>>=◌, for_each}
use netbox_monitor.Effects.Only.{Only, only_raise, only_call}
use netbox_monitor.Effects.Run.{Environment, run}

pub data Ensures {A : Type 0} (Q : A → Type 0) : Prog A → Type 0 where
  ensures_pure : (a : A) → Q a → Ensures Q (pure a)
  ensures_raise : (e : Exn) → Ensures Q (raise e)
  ensures_call :
      (r : Request) (k : Answer (Reply r) → Prog A)
      → ((x : Answer (Reply r)) → Ensures Q (k x))
      → Ensures Q (call r k)

abbrev pub Holds : {A : Type 0} → (A → Type 0) → Answer A → Type 0
Holds Q (answered a) = Q a
Holds Q (failed e) = Unit {0}

module _ {A : Type 0} {Q : A → Type 0} where
  pub Ensures-run :
      {S : Type 0} (env : Environment S) (m : Prog A) (s : S)
      → Ensures Q m
      → Holds Q (run env m s).result
  unfolding run
  Ensures-run env (pure a) s (ensures_pure _ q) = q
  Ensures-run env (raise e) s h = tt
  Ensures-run env (call r k) s (ensures_call _ _ h) = Ensures-run env (k _) _ (h _)

  pub Ensures-all : (m : Prog A) → ((a : A) → Q a) → Ensures Q m
  Ensures-all (pure a) h = ensures_pure a (h a)
  Ensures-all (raise e) h = ensures_raise e
  Ensures-all (call r k) h = ensures_call r k (λ x. Ensures-all (k x) h)

  pub Ensures-if :
      (b : Bool) (m n : Prog A)
      → (b ≡ true → Ensures Q m)
      → (b ≡ false → Ensures Q n)
      → Ensures Q (if b then m else n)
  Ensures-if true m n hm hn = hm refl
  Ensures-if false m n hm hn = hn refl

  pub Ensures-maybe :
      {B : Type 0} (o : Option B) (m : Prog A) (f : B → Prog A)
      → Ensures Q m
      → ((b : B) → Ensures Q (f b))
      → Ensures Q (maybe o m f)
  Ensures-maybe none m f hm hf = hm
  Ensures-maybe (some b) m f hm hf = hf b

module _ {A B : Type 0} {Q : A → Type 0} {R : B → Type 0} where
  pub Ensures-bind :
      (m : Prog A) (f : A → Prog B)
      → Ensures Q m
      → ((a : A) → Q a → Ensures R (f a))
      → Ensures R (m >>= f)
  unfolding ◌>>=◌
  Ensures-bind (pure a) f (ensures_pure _ q) g = g a q
  Ensures-bind (raise e) f h g = ensures_raise e
  Ensures-bind (call r k) f (ensures_call _ _ h) g =
      ensures_call r _ (λ x. Ensures-bind (k x) f (h x) g)

module _ {A B : Type 0} {R : B → Type 0} where
  -- where nothing need be known of the first value
  pub Ensures-then :
      (m : Prog A) (f : A → Prog B) → ((a : A) → Ensures R (f a)) → Ensures R (m >>= f)
  unfolding ◌>>=◌
  Ensures-then (pure a) f g = g a
  Ensures-then (raise e) f g = ensures_raise e
  Ensures-then (call r k) f g = ensures_call r _ (λ x. Ensures-then (k x) f g)

module _ {A S : Type 0} {Q : S → Type 0} where
  pub Ensures-for_each :
      (xs : List A) (s : S) (body : A → S → Prog S)
      → Q s
      → ((x : A) (t : S) → Q t → Ensures Q (body x t))
      → Ensures Q (for_each xs s body)
  unfolding for_each
  Ensures-for_each [] s body q h = ensures_pure s q
  Ensures-for_each (x ∷ xs) s body q h =
      Ensures-bind {Q = Q} (body x s) _ (h x s q) (λ t q'. Ensures-for_each xs t body q' h)

module _ {A B C : Type 0} {Q : C → Type 0} where
  pub Ensures-either :
      (o : A ⊎ B) (f : A → Prog C) (g : B → Prog C)
      → ((a : A) → Ensures Q (f a))
      → ((b : B) → Ensures Q (g b))
      → Ensures Q (either o f g)
  Ensures-either (inl a) f g hf hg = hf a
  Ensures-either (inr b) f g hf hg = hg b

module _ {A : Type 0} {Q R : A → Type 0} where
  pub Ensures-weaken : (m : Prog A) → ((a : A) → Q a → R a) → Ensures Q m → Ensures R m
  Ensures-weaken (pure a) w (ensures_pure _ q) = ensures_pure a (w a q)
  Ensures-weaken (raise e) w h = ensures_raise e
  Ensures-weaken (call r k) w (ensures_call _ _ h) =
      ensures_call r k (λ x. Ensures-weaken (k x) w (h x))

pub ruleset ensures_rules = (ensures_raise, Ensures-if, Ensures-maybe, Ensures-then)

module _ {A : Type 0} {Q : A → Type 0} where
  pub Ensures-try_catch :
      (m : Prog A) (handler : Exn → Prog A)
      → Ensures Q m
      → ((e : Exn) → Ensures Q (handler e))
      → Ensures Q (try_catch m handler)
  unfolding try_catch
  Ensures-try_catch (pure a) handler h g = h
  Ensures-try_catch (raise e) handler h g = g e
  Ensures-try_catch (call r k) handler (ensures_call _ _ h) g =
      ensures_call r _ (λ x. Ensures-try_catch (k x) handler (h x) g)

-- What the first program returns may be known to what follows.
pub Only-bind_ensured :
    {P : Request → Type 0} {A B : Type 0} {Q : A → Type 0} (m : Prog A) (f : A → Prog B)
    → Only P m
    → Ensures Q m
    → ((a : A) → Q a → Only P (f a))
    → Only P (m >>= f)
unfolding ◌>>=◌
Only-bind_ensured (pure a) f h (ensures_pure _ q) g = g a q
Only-bind_ensured (raise e) f h q g = only_raise e
Only-bind_ensured (call r k) f (only_call _ _ p h) (ensures_call _ _ q) g =
    only_call r _ p (λ x. Only-bind_ensured (k x) f (h x) (q x) g)
