-- ===== src/Cstr/Laws.antt =====
-- What the string functions of Cstr decide and write, for every length.
use psi_project.Base.{
  ℕ, zero, suc, ◌-◌, ◌<◌, ◌≤◌, ◌≡◌, ◌↔◌, refl, ◌∙◌, ap, true, List, [], ◌∷◌, ◌++◌, length,
  length-append, length-replicate, replicate, arith,
}
use psi_project.Cstr.{name_size, Name, strncmp, strncpy, copy_name, terminate, text, same_name}

-- `strncmp` decides that the two texts of at most n bytes are equal.
pub strncmp-text : (n : ℕ) (a b : List ℕ) → (strncmp n a b ≡ true) ↔ (text n a ≡ text n b)
unfolding strncmp text
strncmp-text zero a b = (λ _. refl, λ _. refl)
strncmp-text (suc n) [] [] = (λ _. refl, λ _. refl)
strncmp-text (suc n) [] (y ∷ ys) = ground arith
strncmp-text (suc n) (x ∷ xs) [] = ground arith
strncmp-text (suc n) (x ∷ xs) (y ∷ ys) = ground (arith, strncmp-text n xs ys)

pub strncmp_refl : (n : ℕ) (a : List ℕ) → strncmp n a a ≡ true
strncmp_refl n a = (strncmp-text n a a).1 refl

pub strncmp_sym : (n : ℕ) (a b : List ℕ) → strncmp n a b ≡ strncmp n b a
strncmp_sym n a b = ground (arith, strncmp-text n a b, strncmp-text n b a)

pub strncmp_trans :
    (n : ℕ) (a b c : List ℕ) → strncmp n a b ≡ true → strncmp n b c ≡ true → strncmp n a c ≡ true
strncmp_trans n a b c h k =
    (strncmp-text n a c).1 ((strncmp-text n a b).0 h ∙ (strncmp-text n b c).0 k)

-- A comparison sees a name only through what `strncmp` sees.
pub strncmp_congr : (n : ℕ) (a b c : List ℕ) → strncmp n a b ≡ true → strncmp n a c ≡ strncmp n b c
strncmp_congr n a b c h = ground (arith, strncmp-text n a b, strncmp-text n a c, strncmp-text n b c)

pub length-strncpy : (n : ℕ) (s : List ℕ) → length (strncpy n s) ≡ n
unfolding strncpy
length-strncpy zero s = refl
length-strncpy (suc n) [] = ap suc (length-strncpy n [])
length-strncpy (suc n) (x ∷ xs) = ground (arith, length-strncpy n xs, length-replicate {A = ℕ} n 0)

pub length-copy_name : (s : Name) → length (copy_name s) ≡ name_size
unfolding copy_name
length-copy_name s = omega (arith, length-append (strncpy 31 s) (0 ∷ []), length-strncpy 31 s)

text-replicate : (n k : ℕ) (s : List ℕ) → text n (replicate k 0 ++ 0 ∷ s) ≡ []
unfolding text
text-replicate zero k s = refl
text-replicate (suc n) zero s = refl
text-replicate (suc n) (suc k) s = refl

text-strncpy : (n : ℕ) (s : List ℕ) → text (suc n) (strncpy n s ++ 0 ∷ []) ≡ text n s
unfolding strncpy text
text-strncpy zero s = refl
text-strncpy (suc n) [] = refl
text-strncpy (suc n) (x ∷ xs) = ground (arith, text-strncpy n xs)

-- A copied name reads as the first 31 bytes of its source, and is a full, terminated buffer.
pub text-copy_name : (s : Name) → text name_size (copy_name s) ≡ text (name_size - 1) s
unfolding copy_name
text-copy_name s = text-strncpy 31 s

text-text : (n : ℕ) (s : List ℕ) → text n (text (suc n) s) ≡ text n s
unfolding text
text-text zero s = refl
text-text (suc n) [] = refl
text-text (suc n) (x ∷ xs) = ground (arith, text-text n xs)

pub length-text-le : (n : ℕ) (s : List ℕ) → length (text n s) ≤ n
unfolding text
length-text-le zero s = omega arith
length-text-le (suc n) [] = omega arith
length-text-le (suc n) (x ∷ xs) = ground (arith, length-text-le n xs)

pub length-text : (n : ℕ) (s : List ℕ) → length (text n s) ≤ length s
unfolding text
length-text zero s = omega arith
length-text (suc n) [] = omega arith
length-text (suc n) (x ∷ xs) = ground (arith, length-text n xs)

text_short : (n : ℕ) (s : List ℕ) → length (text (suc n) s) ≤ n → text n s ≡ text (suc n) s
unfolding text
text_short zero [] h = refl
text_short zero (x ∷ xs) h = ground arith
text_short (suc n) [] h = refl
text_short (suc n) (x ∷ xs) h = ground (arith, text_short n xs)

-- A name is well formed if a NUL stands among its first 32 bytes.
abbrev pub IsName : Name → Type 0
IsName s = length (text name_size s) < name_size

-- A well-formed name and its copy are the same node to every comparison.
pub same_name-copy_name : (s : Name) → IsName s → same_name (copy_name s) s ≡ true
same_name-copy_name s h =
    (strncmp-text name_size (copy_name s) s).1 (text-copy_name s ∙ text_short 31 s (omega arith))

pub copy_name-IsName : (s : Name) → IsName (copy_name s)
copy_name-IsName s = omega (arith, ap length (text-copy_name s), length-text-le 31 s)

-- `strncmp` of a copied name against any name is that of its source, for a well-formed source.
pub same_name-copy_left : (s t : Name) → IsName s → same_name (copy_name s) t ≡ same_name s t
same_name-copy_left s t h = strncmp_congr name_size (copy_name s) s t (same_name-copy_name s h)

pub same_name-copy_right : (s t : Name) → IsName t → same_name s (copy_name t) ≡ same_name s t
same_name-copy_right s t h =
    strncmp_sym name_size s (copy_name t) ∙ same_name-copy_left t s h ∙ strncmp_sym name_size t s

-- Copying a copy changes no byte.
strncpy_idem : (n : ℕ) (s r : List ℕ) → strncpy n (strncpy n s ++ r) ≡ strncpy n s
unfolding strncpy
strncpy_idem zero s r = refl
strncpy_idem (suc n) [] r = ground (arith, strncpy-nil n)
  where
    strncpy-nil : (n : ℕ) → strncpy n [] ≡ replicate n 0
    strncpy-nil zero = refl
    strncpy-nil (suc n) = ap (◌∷◌ 0) (strncpy-nil n)
strncpy_idem (suc n) (x ∷ xs) r = ground (arith, strncpy_idem n xs r)

pub copy_name_idem : (s : Name) → copy_name (copy_name s) ≡ copy_name s
unfolding copy_name
copy_name_idem s = ap (λ t. t ++ 0 ∷ []) (strncpy_idem 31 s (0 ∷ []))

-- `dst[N - 1] = 0` leaves a copied name as it is.
terminate-append :
    (n : ℕ) (s : List ℕ) → length s ≡ n → terminate (suc n) (s ++ 0 ∷ []) ≡ s ++ 0 ∷ []
unfolding terminate
terminate-append zero [] h = refl
terminate-append zero (x ∷ xs) h = absurd (omega arith)
terminate-append (suc n) [] h = absurd (omega arith)
terminate-append (suc n) (x ∷ xs) h = ap (◌∷◌ x) (terminate-append n xs (omega arith))

pub terminate-copy_name : (s : Name) → terminate name_size (copy_name s) ≡ copy_name s
unfolding copy_name
terminate-copy_name s = terminate-append 31 (strncpy 31 s) (length-strncpy 31 s)
