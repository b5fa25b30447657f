-- ===== src/Cstr.antt =====
-- The C string functions that the node uses on its fixed buffers (string.h), and the copy idiom of
-- src/join.c, src/join_fsm.c and the others: `strncpy (dst, src, N - 1); dst[N - 1] = 0`.
-- A string is the list of its bytes; the end of the list reads as NUL.
pub mod Laws
mod Examples
use psi_project.Base.{
  ℕ, zero, suc, ◌-◌, Bool, true, false, List, [], ◌∷◌, ◌++◌, ◌==◌, if◌then◌else◌, replicate, length,
}

-- MAX_NODE_NAME_SIZE and MAX_DATA_SIZE.
abbrev pub name_size : ℕ
name_size = 32

abbrev pub data_size : ℕ
data_size = 256

abbrev pub Name : Type 0
Name = List ℕ

-- strncmp (a, b, n) == 0.
unfoldable pub strncmp : ℕ → List ℕ → List ℕ → Bool
strncmp zero a b = true
strncmp (suc n) [] [] = true
strncmp (suc n) [] (y ∷ ys) = y == 0
strncmp (suc n) (x ∷ xs) [] = x == 0
strncmp (suc n) (x ∷ xs) (y ∷ ys) =
    if x == y then if x == 0 then true else strncmp n xs ys else false

-- strcmp (a, b) == 0: no limit but the NUL, which the end of the list is at the latest.
abbrev pub strcmp : List ℕ → List ℕ → Bool
strcmp a b = strncmp (suc (length a)) a b

-- strncpy: at most n bytes, the rest filled with NUL; exactly n bytes are written.
unfoldable pub strncpy : ℕ → List ℕ → List ℕ
strncpy zero s = []
strncpy (suc n) [] = 0 ∷ strncpy n []
strncpy (suc n) (x ∷ xs) = if x == 0 then replicate (suc n) 0 else x ∷ strncpy n xs

-- The copy of a name into a buffer of MAX_NODE_NAME_SIZE bytes.
unfoldable pub copy_name : Name → Name
unfolding strncpy
copy_name s = strncpy (name_size - 1) s ++ 0 ∷ []

-- dst[N - 1] = 0 on a received buffer.
unfoldable pub terminate : ℕ → List ℕ → List ℕ
terminate zero s = s
terminate (suc zero) s = 0 ∷ []
terminate (suc (suc n)) [] = 0 ∷ terminate (suc n) []
terminate (suc (suc n)) (x ∷ xs) = x ∷ terminate (suc n) xs

-- The text that a reader of at most n bytes sees.
unfoldable pub text : ℕ → List ℕ → List ℕ
text zero s = []
text (suc n) [] = []
text (suc n) (x ∷ xs) = if x == 0 then [] else x ∷ text n xs

-- Two names are the same node: strncmp (a, b, MAX_NODE_NAME_SIZE) == 0.
abbrev pub same_name : Name → Name → Bool
same_name a b = strncmp name_size a b
