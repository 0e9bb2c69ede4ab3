-- ===== src/Base/Window.antt =====
-- The items of a ring buffer: those at positions `h`, `h + 1`, …, taken modulo its length.
use Prim.Native.Nat.{ℕ, zero, suc, ◌+◌, ◌%◌, ◌≤◌, ◌<◌}
use mathlib.Core.Path.{◌≡◌, refl, subst}
use mathlib.Core.Logic.{◌≢◌}
use mathlib.Core.List.{List, [], ◌∷◌, ◌++◌}
use native.Mathlib.Nat.{add-zero}
use native.Mathlib.Omega.{arith}
use psp.Base.Arrays.{update, update_self, update_ne}
use psp.Base.Lists.{length, take, drop}

-- two positions less than a lap apart have different slots
pub mod_apart : (n h j : ℕ) → h < j → j < h + n → h % n ≢ j % n
mod_apart n h j lt near = grind arith

module _ {ℓ} {A : Type ℓ} (n : ℕ) where
  abbrev pub Window : (ℕ → A) → ℕ → List A → Type ℓ
  Window t h [] = Unit
  Window t h (x ∷ q) = (t (h % n) ≡ x) × Window t (h + 1) q

  pub Window-update :
      (t : ℕ → A) (v : A) (h j : ℕ) (q : List A)
      → h + length q ≤ j
      → j < h + n
      → Window t h q
      → Window (update t (j % n) v) h q
  Window-update t v h j [] le lt w = tt
  Window-update t v h j (x ∷ q) le lt w = (
    rw (update_ne t (j % n) v (h % n) (mod_apart n h j (omega arith) lt)) w.0,
    Window-update t v (h + 1) j q (omega arith) (omega arith) w.1,
  )

  -- an item written behind the last one
  pub Window-append :
      (t : ℕ → A) (v : A) (h j : ℕ) (q : List A)
      → j ≡ h + length q
      → Window t h q
      → t (j % n) ≡ v
      → Window t h (q ++ (v ∷ []))
  Window-append t v h j [] at w e =
      let same : j ≡ h = omega arith in (subst (λ k. t (k % n) ≡ v) same e, tt)
  Window-append t v h j (x ∷ q) at w e = (w.0, Window-append t v (h + 1) j q (omega arith) w.1 e)

  pub Window-push :
      (t : ℕ → A) (v : A) (h : ℕ) (q : List A)
      → length q < n
      → Window t h q
      → Window (update t ((h + length q) % n) v) h (q ++ (v ∷ []))
  Window-push t v h q room w =
      Window-append (update t ((h + length q) % n) v) v h (h + length q) q refl
        (Window-update t v h (h + length q) q (omega arith) (omega arith) w)
        (update_self t ((h + length q) % n) v)

  -- taking the first `k` items off
  pub Window-drop :
      (t : ℕ → A) (h k : ℕ) (q : List A)
      → Window t h q
      → Window t (h + length (take k q)) (drop k q)
  Window-drop t h zero q w = rw add-zero w
  Window-drop t h (suc k) [] w = tt
  Window-drop t h (suc k) (x ∷ q) w =
      let same : h + 1 + length (take k q) ≡ h + suc (length (take k q)) = omega arith in
      rw same at (Window-drop t (h + 1) k q w.1)
