-- ===== src/Heap/Order.antt =====
-- The order of a heap, for a `less` that is a weak order on the entries that are `good`.
use caddy_fair_admission.Prelude.{◌≡◌, Bool, true, false}

-- `less x y` false for entries in this order means that y does not come after x.
pub record IsWeakOrder {A : Type 0} (less : A → A → Bool) (good : A → Bool) : Type 0 where
  pub asym : (x y : A) → less x y ≡ true → less y x ≡ false
  pub trans :
      (x y z : A)
      → good x ≡ true
      → good y ≡ true
      → good z ≡ true
      → less x y ≡ false
      → less y z ≡ false
      → less x z ≡ false
