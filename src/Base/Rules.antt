-- ===== src/Base/Rules.antt =====
-- What a handler keeps: a property of the state that holds afterwards if it held before, whether the
-- handler throws or not.
use bonapp.Base.Handler.{Result, ok, err, pure, ◌>>◌}

pub record Keeps {S A : Type 0} (P : S → Type 0) (m : S → Result A × S) : Type 0 where
  pub keep : (s : S) → P s → P (m s).1

module _ {S : Type 0} {P : S → Type 0} where
  pub pure-Keeps : {A : Type 0} (a : A) → Keeps P (pure a)
  pure-Keeps a = record { keep = λ s h. h }

  bound :
      {A B : Type 0} (r : Result A) (s : S) (f : A → S → Result B × S)
      → ((a : A) → Keeps P (f a))
      → P s
      → P (elim r as (λ _. Result B × S) [ ok a ↦ f a s | err e ↦ (err e, s) ]).1
  bound (ok a) s f k h = (k a).keep s h
  bound (err e) s f k h = h

  pub then-Keeps :
      {A B : Type 0} {m : S → Result A × S} {n : S → Result B × S}
      → Keeps P m
      → Keeps P n
      → Keeps P (m >> n)
  then-Keeps {m} {n} k l = record {
    keep = λ s h. bound (m s).0 (m s).1 (λ _. n) (λ _. l) (k.keep s h);
  }
