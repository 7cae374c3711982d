-- ===== src/Effects/Keeps.antt =====
-- What actions lead to: one rule for each way to build an action. A postcondition holds whether the
-- action returns or raises.
use tgc_bus_core.Base.{
  ◌≡◌, refl, ◌⊎◌, inl, inr, Bool, true, false, Option, none, some, if◌then◌else◌,
}
use tgc_bus_core.Effects.{
  Result, ok, err, Error, Action, pure, raise, raise_if, gets, lift, or_raise, continue, ◌>>=◌,
}

pub record Leads {S A : Type 0} (P Q : S → Type 0) (m : Action S A) : Type 0 where
  pub at : (s : S) → P s → Q (m s).1

abbrev pub Keeps : {S A : Type 0} → (S → Type 0) → Action S A → Type 0
Keeps P m = Leads P P m

module _ {S A : Type 0} {P : S → Type 0} where
  pub Keeps-pure : (a : A) → Keeps P (pure {S = S} a)
  Keeps-pure a = record { at = λ s h. h }

  pub Keeps-lift : (r : Result A) → Keeps P (lift {S = S} r)
  Keeps-lift r = record { at = λ s h. h }

  pub Keeps-raise : (e : Error) → Keeps P (raise {S = S} {A = A} e)
  Keeps-raise e = record { at = λ s h. h }

  pub Keeps-gets : (f : S → A) → Keeps P (gets f)
  Keeps-gets f = record { at = λ s h. h }

  pub Keeps-or_raise : (o : Option A) (e : Error) → Keeps P (or_raise {S = S} o e)
  Keeps-or_raise none e = record { at = λ s h. h }
  Keeps-or_raise (some a) e = record { at = λ s h. h }

  pub Leads-if :
      {Q : S → Type 0} (b : Bool) (m n : Action S A)
      → Leads P Q m
      → Leads P Q n
      → Leads P Q (if b then m else n)
  Leads-if true m n km kn = km
  Leads-if false m n km kn = kn

pub Keeps-raise_if :
    {S : Type 0} {P : S → Type 0} (b : Bool) (e : Error) → Keeps P (raise_if {S = S} b e)
Keeps-raise_if b e = record { at = λ s h. h }

Leads-continue :
    {S A B : Type 0} {Q : S → Type 0} (r : Result A) (f : A → Action S B) (s : S)
    → ((a : A) → Keeps Q (f a))
    → Q s
    → Q (continue r f s).1
Leads-continue (ok a) f s kf h = (kf a).at s h
Leads-continue (err e) f s kf h = h

module _ {S A B : Type 0} {P Q : S → Type 0} where
  -- The action does its part first, and the rest keeps it.
  pub Leads-bind :
      (m : Action S A) (f : A → Action S B)
      → Leads P Q m
      → ((a : A) → Keeps Q (f a))
      → Leads P Q (m >>= f)
  Leads-bind m f km kf = record {
    at = λ s h. let (r, t) = m s in Leads-continue r f t kf (km.at s h);
  }

  -- The first part keeps, and the rest does what is to be done. A raise leaves it undone.
  pub Leads-after :
      (m : Action S A) (f : A → Action S B)
      → ((s : S) → P s → Q s)
      → Keeps P m
      → ((a : A) → Leads P Q (f a))
      → Leads P Q (m >>= f)
  Leads-after m f weaken km kf = record { at = λ s h. let (r, t) = m s in after r t (km.at s h) }
    where
      after : (r : Result A) (t : S) → P t → Q (continue r f t).1
      after (ok a) t h = (kf a).at t h
      after (err e) t h = weaken t h

pub ruleset keeps_rules = (
  Keeps-pure, Keeps-lift, Keeps-raise, Keeps-gets, Keeps-or_raise, Keeps-raise_if, Leads-if,
  Leads-bind,
)

-- An action that changes no state, before another: it stops there by an error, or the other begins
-- where it began.
pub Reads-bind :
    {S A B : Type 0} (m : Action S A) (f : A → Action S B) (s : S)
    → Keeps (λ t. t ≡ s) m
    → ((a : A) × ((m >>= f) s ≡ f a s)) ⊎ ((e : Error) × ((m >>= f) s ≡ (err e, s)))
Reads-bind {S} {A} {B} m f s k = let (r, t) = m s in of_result r t (k.at s refl)
  where
    of_result :
        (r : Result A) (t : S)
        → t ≡ s
        → ((a : A) × (continue r f t ≡ f a s)) ⊎ ((e : Error) × (continue r f t ≡ (err e, s)))
    of_result (ok a) t same = inl (a, rw same refl)
    of_result (err e) t same = inr (e, rw same refl)
