-- ===== src/Effects/Gives.antt =====
-- What actions give where they return: the postcondition may speak of the value.
use tgc_bus_core.Base.{◌≡◌, refl, sym, Bool, true, false, Option, none, some, if◌then◌else◌}
use tgc_bus_core.Effects.{
  Result, ok, err, Error, Action, pure, gets, lift, or_raise, continue, ◌>>=◌,
}
use tgc_bus_core.Effects.Keeps.{Keeps}

pub record Gives {S A : Type 0} (P : S → Type 0) (Q : A → S → Type 0) (m : Action S A)
    : Type 0 where
  pub at : (s : S) (a : A) → P s → (m s).0 ≡ ok a → Q a (m s).1

module _ {S A B : Type 0} {P : S → Type 0} {Q : A → S → Type 0} {R : B → S → Type 0} where
  pub Gives-bind :
      (m : Action S A) (f : A → Action S B)
      → Gives P Q m
      → ((a : A) → Gives (Q a) R (f a))
      → Gives P R (m >>= f)
  Gives-bind m f km kf = record {
    at = λ s b p h. let (r, t) = m s in go r t b (λ a e. km.at s a p e) h;
  }
    where
      go :
          (r : Result A) (t : S) (b : B)
          → ((a : A) → r ≡ ok a → Q a t)
          → (continue r f t).0 ≡ ok b
          → R b (continue r f t).1
      go (ok a) t b q h = (kf a).at t b (q a refl) h
      go (err e) t b q h = cc

module _ {S A : Type 0} {P : S → Type 0} where
  -- What changes no state keeps what holds.
  pub Gives-lift : (r : Result A) → Gives P (λ a s. P s) (lift {S = S} r)
  Gives-lift r = record { at = λ s a p h. p }

  pub Gives-gets : (f : S → A) → Gives P (λ a s. P s) (gets f)
  Gives-gets f = record { at = λ s a p h. p }

  pub Gives-or_raise : (o : Option A) (e : Error) → Gives P (λ a s. P s) (or_raise {S = S} o e)
  Gives-or_raise none e = record { at = λ s a p h. p }
  Gives-or_raise (some a) e = record { at = λ s a p h. p }

  pub Gives-of : (m : Action S A) → Keeps P m → Gives P (λ a s. P s) m
  Gives-of m k = record { at = λ s a p h. k.at s p }

  pub Gives-pure : {Q : A → S → Type 0} (a : A) → ((s : S) → P s → Q a s) → Gives P Q (pure a)
  Gives-pure a k = record { at = λ s b p h. let same : a ≡ b = cc in rw (sym same) (k s p) }

  pub Gives-if :
      {Q : A → S → Type 0} (b : Bool) (m n : Action S A)
      → Gives P Q m
      → Gives P Q n
      → Gives P Q (if b then m else n)
  Gives-if true m n km kn = km
  Gives-if false m n km kn = kn

  -- From less.
  pub Gives-from :
      {P' : S → Type 0} {Q : A → S → Type 0} (m : Action S A)
      → ((s : S) → P' s → P s)
      → Gives P Q m
      → Gives P' Q m
  Gives-from m f k = record { at = λ s a p h. k.at s a (f s p) h }
