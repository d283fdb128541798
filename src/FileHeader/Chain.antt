-- ===== src/FileHeader/Chain.antt =====
-- code/filesys/filehdr.cc: the sectors that a run of successful searches takes from the free map.
use nachos_system_design.FileHeader.{int_of, allocate_direct, clear_direct}
use native.Mathlib.Nat.{add-zero}
use nachos_system_design.Base.{
  set_all, lt→ltb, eq→==, not, ◌&&◌, subst, sym, ℕ, zero, suc, ◌+◌, ◌^◌, ◌≤◌, ◌<◌, ◌≡◌, refl, ap,
  ◌∙◌, Bool, true, false, ◌||◌, Option, some, List, [], ◌∷◌, ltb, ◌==◌, get_or, set, length, ok,
  ◌>>◌, assert, Returns, arith,
}
use nachos_system_design.Bitmap.{Bitmap}
use nachos_system_design.Bitmap
use nachos_system_design.Bitmap.Bits.{IsValid, is_marked, Writes, clear-Writes}
use nachos_system_design.Bitmap.Search.{
  Finds, free, full, find_and_set-Finds, clears, clears_full, clears-Writes,
}

-- Whether a sector is in a list.
unfoldable pub listed : ℕ → List ℕ → Bool
listed j [] = false
listed j (s ∷ ss) = s == j || listed j ss

-- The sectors were free, differ from one another, and are now in use; no other bit changed.
pub record Takes (b : Bitmap) (ss : List ℕ) (b' : Bitmap) : Type 0 where
  pub valid : IsValid b'
  pub same_size : b'.num_bits ≡ b.num_bits
  pub reads : (j : ℕ) → is_marked b' j ≡ (is_marked b j || listed j ss)
  pub were_free : (j : ℕ) → listed j ss ≡ true → (j < b.num_bits) × (is_marked b j ≡ false)
  pub left : clears b'.num_bits (is_marked b') + length ss ≡ clears b.num_bits (is_marked b)

-- No sector stands twice.
abbrev pub IsDistinct : List ℕ → Type 0
IsDistinct [] = Unit {0}
IsDistinct (s ∷ ss) = (listed s ss ≡ false) × IsDistinct ss

pub Takes-nil : (b : Bitmap) → IsValid b → Takes b [] b
unfolding listed
Takes-nil b v = record {
  valid = v;
  same_size = refl;
  reads = λ j. ground arith;
  were_free = λ j h. cc;
  left = omega arith;
}

-- One search, then the rest.
pub Takes-cons :
    (b : Bitmap) (s : ℕ) (b₁ : Bitmap) (ss : List ℕ) (b₂ : Bitmap)
    → s < b.num_bits
    → is_marked b s ≡ false
    → Writes b s true b₁
    → Takes b₁ ss b₂
    → Takes b (s ∷ ss) b₂
unfolding listed
Takes-cons b s b₁ ss b₂ lt unused w t = record {
  valid = t.valid;
  same_size = t.same_size ∙ w.same_size;
  reads = λ j. ground (arith, t.reads j, w.reads j);
  were_free = λ j h. ground (arith, t.were_free j, w.reads j, w.same_size);
  left = omega (arith, t.left, clears-Writes s lt unused w);
}

-- A search that has to succeed.
pub data Took (b : Bitmap) : Option ℕ × Bitmap → Type 0 where
  took :
      (s : ℕ) (b' : Bitmap)
      → s < b.num_bits
      → is_marked b s ≡ false
      → Writes b s true b'
      → Took b (some s, b')

Finds-Took :
    {b : Bitmap} {r : Option ℕ × Bitmap}
    → 0 < clears b.num_bits (is_marked b)
    → Finds b r
    → Took b r
Finds-Took {b} h (full all) = absurd (omega (arith, clears_full b.num_bits (is_marked b) all))
Finds-Took h (free i b' lt e below w) = took i b' lt e w

pub find_and_set-Took :
    (b : Bitmap)
    → IsValid b
    → 0 < clears b.num_bits (is_marked b)
    → Returns (Bitmap.find_and_set b) (Took b)
find_and_set-Took b v h = let (r, run, f) = find_and_set-Finds b v in (r, run, Finds-Took h f)

-- A sector taken first is not taken again.
Takes-apart :
    (b b₁ b₂ : Bitmap) (s : ℕ) (ss : List ℕ)
    → Writes b s true b₁
    → Takes b₁ ss b₂
    → listed s ss ≡ false
Takes-apart b b₁ b₂ s ss w t = ground (arith, w.reads s, t.were_free s)

-- The loop over the direct table takes as many sectors as it has rounds, and writes them in order.
pub record Fills (b : Bitmap) (n i : ℕ) (old : List ℕ) (r : List ℕ × Bitmap) : Type 0 where
  pub sectors : List ℕ
  pub count : length sectors ≡ n
  pub takes : Takes b sectors r.1
  pub distinct : IsDistinct sectors
  pub placed : r.0 ≡ set_all old i sectors

pub allocate_direct-Fills :
    (n i : ℕ) (old : List ℕ) (b : Bitmap)
    → IsValid b
    → b.num_bits ≤ 2 ^ 31
    → n ≤ clears b.num_bits (is_marked b)
    → Returns (allocate_direct n i old b) (Fills b n i old)
unfolding allocate_direct set_all
allocate_direct-Fills zero i old b v small h = (
  (old, b),
  refl,
  record { sectors = []; count = refl; takes = Takes-nil b v; distinct = tt; placed = refl },
)
allocate_direct-Fills (suc n) i old b v small h =
    let (r, run, t) = find_and_set-Took b v (omega arith) in
    rw run (continue r t (allocate_direct-Fills n (i + 1)))
  where
    continue :
        (r : Option ℕ × Bitmap)
        → Took b r
        → ((old : List ℕ) (b : Bitmap)
            → IsValid b
            → b.num_bits ≤ 2 ^ 31
            → n ≤ clears b.num_bits (is_marked b)
            → Returns (allocate_direct n (i + 1) old b) (Fills b n (i + 1) old))
        → Returns
            (assert (ltb (int_of r.0) (2 ^ 31))
              >> allocate_direct n (i + 1) (set old i (int_of r.0)) r.1)
            (Fills b (suc n) i old)
    continue r (took s b' lt unused w) ih =
        let (q, run, f) =
          ih (set old i s) b' w.valid (omega (arith, w.same_size))
            (omega (arith, clears-Writes s lt unused w)) in
        rw (lt→ltb s (2 ^ 31) (omega arith)) (
          q,
          run,
          record {
            sectors = s ∷ f.sectors;
            count = ap suc f.count;
            takes = Takes-cons b s b' f.sectors q.1 lt unused w f.takes;
            distinct = (Takes-apart b b' q.1 s f.sectors w f.takes, f.distinct);
            placed = f.placed;
          },
        )

-- The sectors are free afterwards; no other bit changed.
pub record Gives (b : Bitmap) (ss : List ℕ) (b' : Bitmap) : Type 0 where
  pub valid : IsValid b'
  pub same_size : b'.num_bits ≡ b.num_bits
  pub reads : (j : ℕ) → is_marked b' j ≡ (is_marked b j && not (listed j ss))

pub clear_direct-Gives :
    (ss sectors : List ℕ) (i : ℕ) (b : Bitmap)
    → IsValid b
    → ((j : ℕ) → listed j ss ≡ true → j < b.num_bits)
    → ((k : ℕ) → k < length ss → get_or sectors (i + k) 0 ≡ get_or ss k 0)
    → Returns (clear_direct (length ss) i sectors b) (Gives b ss)
unfolding clear_direct listed
clear_direct-Gives [] sectors i b v range same =
    (b, refl, record { valid = v; same_size = refl; reads = λ j. ground arith })
clear_direct-Gives (s ∷ ss) sectors i b v range same =
    let here : get_or sectors i 0 ≡ s = rw add-zero at (same 0 (omega arith)) in
    let (b₁, run, w) = clear-Writes b v s (range s (ground (arith, eq→== s s))) in
    let (b₂, run', g) =
      clear_direct-Gives ss sectors (i + 1) b₁ w.valid
        (λ j l. subst (λ n. j < n) (sym w.same_size) (range j (ground (arith, l))))
        (λ k lt. ap (λ n. get_or sectors n 0) (omega arith) ∙ same (suc k) (omega arith)) in
    rw (here, run)
      (
        b₂,
        run',
        record {
          valid = g.valid;
          same_size = g.same_size ∙ w.same_size;
          reads = λ j. ground (arith, g.reads j, w.reads j);
        },
      )

pub listed-get_or : (ss : List ℕ) (k : ℕ) → k < length ss → listed (get_or ss k 0) ss ≡ true
unfolding listed
listed-get_or [] k h = absurd (omega arith)
listed-get_or (s ∷ ss) zero h = ground (arith, eq→== s s)
listed-get_or (s ∷ ss) (suc k) h = ground (arith, listed-get_or ss k (omega arith))

-- Different places of a list without repetition hold different sectors.
pub IsDistinct-get_or :
    (ss : List ℕ) (k l : ℕ)
    → IsDistinct ss
    → k < length ss
    → l < length ss
    → get_or ss k 0 ≡ get_or ss l 0
    → k ≡ l
unfolding listed
IsDistinct-get_or [] k l d h h' e = absurd (omega arith)
IsDistinct-get_or (s ∷ ss) zero zero d h h' e = refl
IsDistinct-get_or (s ∷ ss) zero (suc l) d h h' e =
    absurd (ground (arith, e, d.0, listed-get_or ss l (omega arith)))
IsDistinct-get_or (s ∷ ss) (suc k) zero d h h' e =
    absurd (ground (arith, e, d.0, listed-get_or ss k (omega arith)))
IsDistinct-get_or (s ∷ ss) (suc k) (suc l) d h h' e =
    ap suc (IsDistinct-get_or ss k l d.1 (omega arith) (omega arith) e)

-- The same with its parts named.
pub record Taken (b : Bitmap) : Type 0 where
  pub sector : ℕ
  pub after : Bitmap
  pub run : Bitmap.find_and_set b ≡ ok (some sector, after)
  pub in_range : sector < b.num_bits
  pub was_free : is_marked b sector ≡ false
  pub writes : Writes b sector true after

Took-Taken :
    {b : Bitmap} (r : Option ℕ × Bitmap) → Bitmap.find_and_set b ≡ ok r → Took b r → Taken b
Took-Taken r e (took s b' lt unused w) = record {
  sector = s;
  after = b';
  run = e;
  in_range = lt;
  was_free = unused;
  writes = w;
}

pub find_and_set-Taken : (b : Bitmap) → IsValid b → 0 < clears b.num_bits (is_marked b) → Taken b
find_and_set-Taken b v h = let (r, run, t) = find_and_set-Took b v h in Took-Taken r run t
