-- ===== src/CString.antt =====
-- The string routines that the file system calls: `strncmp` against 0, and `strncpy`. A string
-- is the list of its characters; it ends at its first zero, or at the end of the list.
use nachos_system_design.Base.{
  ℕ, zero, suc, ◌≤◌, ◌≡◌, refl, Bool, true, ◌&&◌, ◌||◌, List, [], ◌∷◌, arith, ◌==◌, if◌then◌else◌,
  length,
}

abbrev pub first_char : List ℕ → ℕ
first_char [] = 0
first_char (c ∷ s) = c

abbrev pub rest_chars : List ℕ → List ℕ
rest_chars [] = []
rest_chars (c ∷ s) = s

-- `!strncmp(s, t, n)`
unfoldable pub strncmp_eq : ℕ → List ℕ → List ℕ → Bool
strncmp_eq zero s t = true
strncmp_eq (suc n) s t =
    first_char s == first_char t
    && (first_char s == 0 || strncmp_eq n (rest_chars s) (rest_chars t))

-- `strncpy(dst, s, n)`: after the end of `s` the rest of the n characters is filled with zeros.
unfoldable pub strncpy : ℕ → List ℕ → List ℕ → List ℕ
strncpy zero dst s = dst
strncpy (suc n) [] s = []
strncpy (suc n) (d ∷ dst) s =
    first_char s ∷ strncpy n dst (if first_char s == 0 then [] else rest_chars s)

pub length-strncpy : (n : ℕ) (dst s : List ℕ) → length (strncpy n dst s) ≡ length dst
unfolding strncpy
length-strncpy zero dst s = refl
length-strncpy (suc n) [] s = refl
length-strncpy (suc n) (d ∷ dst) s =
    rw (length-strncpy n dst (if first_char s == 0 then [] else rest_chars s))

pub strncmp_refl : (n : ℕ) (s : List ℕ) → strncmp_eq n s s ≡ true
unfolding strncmp_eq
strncmp_refl zero s = refl
strncmp_refl (suc n) s = ground (arith, strncmp_refl n (rest_chars s))

pub strncmp_symm : (n : ℕ) (s t : List ℕ) → strncmp_eq n s t ≡ strncmp_eq n t s
unfolding strncmp_eq
strncmp_symm zero s t = refl
strncmp_symm (suc n) s t = ground (arith, strncmp_symm n (rest_chars s) (rest_chars t))

-- Equal strings compare alike with any third one.
pub strncmp_congr :
    (n : ℕ) (s t u : List ℕ) → strncmp_eq n s t ≡ true → strncmp_eq n s u ≡ strncmp_eq n t u
unfolding strncmp_eq
strncmp_congr zero s t u h = refl
strncmp_congr (suc n) s t u h =
    ground (arith, strncmp_congr n (rest_chars s) (rest_chars t) (rest_chars u))

-- A copy of n characters compares on n characters as its original does.
pub strncmp-strncpy :
    (n : ℕ) (dst s t : List ℕ)
    → n ≤ length dst
    → strncmp_eq n (strncpy n dst s) t ≡ strncmp_eq n s t
unfolding strncmp_eq strncpy
strncmp-strncpy zero dst s t h = refl
strncmp-strncpy (suc n) [] s t h = absurd (omega arith)
strncmp-strncpy (suc n) (d ∷ dst) s t h =
    ground (arith, strncmp-strncpy n dst (rest_chars s) (rest_chars t))

-- `strcmp(s, t) == 0`
unfoldable pub strcmp_eq : List ℕ → List ℕ → Bool
strcmp_eq [] t = first_char t == 0
strcmp_eq (c ∷ s) t = c == first_char t && (c == 0 || strcmp_eq s (rest_chars t))

pub strcmp_refl : (s : List ℕ) → strcmp_eq s s ≡ true
unfolding strcmp_eq
strcmp_refl [] = refl
strcmp_refl (c ∷ s) = ground (arith, strcmp_refl s)
