-- ===== src/Machine/Memory/Laws.antt =====
-- code/machine/translate.cc: what a store leaves for a later load.
use native.Mathlib.Nat.{add-zero}
use nachos_system_design.Base.{
  set_all, length-set_all, get_or-set_all, get_or-set_all_outside, ℕ, ◌+◌, ◌*◌, ◌/◌, ◌%◌, ◌^◌, ◌≤◌,
  ◌<◌, ◌≡◌, refl, ap, ◌⊎◌, inl, inr, List, [], ◌∷◌, ◌==◌, if◌then◌else◌, get_or, length, ok, arith,
  Returns,
}
use nachos_system_design.Machine.Translate.Laws.{IsSize}
use nachos_system_design.Machine.Memory.{byte_at, sign_extend_byte, fetch, store}

-- What a load of the given size makes of a stored value.
abbrev pub loaded : ℕ → ℕ → ℕ
loaded size value = if size == 1 then sign_extend_byte (value % 256) else (value % 2 ^ (8 * size))

-- A store writes `size` bytes and no others, and a load from there gives them back.
pub record Stores (mem : List ℕ) (pa size value : ℕ) (mem' : List ℕ) : Type 0 where
  pub same_length : length mem' ≡ length mem
  pub outside : (a : ℕ) → (a < pa) ⊎ (pa + size ≤ a) → byte_at mem' a ≡ byte_at mem a
  pub fetched : fetch mem' pa size ≡ ok (loaded size value)

module _ (mem : List ℕ) (pa value : ℕ) where
  puts :
      (bs : List ℕ)
      → pa + length bs ≤ length mem
      → fetch (set_all mem pa bs) pa (length bs) ≡ ok (loaded (length bs) value)
      → Stores mem pa (length bs) value (set_all mem pa bs)
  puts bs h e = record {
    same_length = length-set_all bs mem pa;
    outside = λ a o. get_or-set_all_outside bs mem pa a 0 h o;
    fetched = e;
  }

  read_back :
      (bs : List ℕ)
      → pa + length bs ≤ length mem
      → (i : ℕ) → i < length bs
      → byte_at (set_all mem pa bs) (pa + i) ≡ get_or bs i 0
  read_back bs h i lt = get_or-set_all bs mem pa i 0 h lt

  first_back :
      (bs : List ℕ)
      → pa + length bs ≤ length mem
      → 0 < length bs
      → byte_at (set_all mem pa bs) pa ≡ get_or bs 0 0
  first_back bs h lt = rw add-zero at (read_back bs h 0 lt)

  store_one : pa + 1 ≤ length mem → Returns (store mem pa 1 value) (Stores mem pa 1 value)
  unfolding store fetch
  store_one h =
      let bs : List ℕ = (value % 256) ∷ [] in
      (set_all mem pa bs, refl, puts bs h (rw (first_back bs h (omega arith))))

  store_two : pa + 2 ≤ length mem → Returns (store mem pa 2 value) (Stores mem pa 2 value)
  unfolding store fetch
  store_two h =
      let bs : List ℕ = (value % 256) ∷ (value / 256 % 256) ∷ [] in
      (
        set_all mem pa bs,
        refl,
        puts bs h (
            rw (first_back bs h (omega arith), read_back bs h 1 (omega arith))
              (ap ok (omega arith))),
      )

  store_four :
      pa + 4 ≤ length mem → value < 2 ^ 32 → Returns (store mem pa 4 value) (Stores mem pa 4 value)
  unfolding store fetch
  store_four h small =
      let bs : List ℕ =
        (value % 256)
        ∷ (value / 256 % 256)
        ∷ (value / 65536 % 256)
        ∷ (value / 16777216 % 256)
        ∷ [] in
      (
        set_all mem pa bs,
        refl,
        puts bs h (
            rw
              (
                first_back bs h (omega arith),
                read_back bs h 1 (omega arith),
                read_back bs h 2 (omega arith),
                read_back bs h 3 (omega arith),
              )
              (ap ok (omega arith))),
      )

  pub store-Stores :
      (size : ℕ)
      → IsSize size
      → pa + size ≤ length mem
      → value < 2 ^ 32
      → Returns (store mem pa size value) (Stores mem pa size value)
  store-Stores size (inl e) h small = rw e (store_one (rw e at h))
  store-Stores size (inr (inl e)) h small = rw e (store_two (rw e at h))
  store-Stores size (inr (inr e)) h small = rw e (store_four (rw e at h) small)
