-- ===== src/Stock/Flags.antt =====
-- The flags that the two pipelines leave, item by item.
use recsys_pipeline.Common.{
  ℕ, zero, suc, ◌+◌, ◌≡◌, refl, sym, ap, subst, ◌∙◌, Bool, true, false, not, Option, none, some,
  List, [], ◌∷◌, ◌++◌, map, append_assoc, length, length-append, replicate, set, get_elem?, arith,
  ◌==◌,
}
use recsys_pipeline.Common.Int.{ℤ}
use recsys_pipeline.Common.Text.{Text}
use recsys_pipeline.Redis.{Reply, value, missing, failed}
use recsys_pipeline.Strconv.{parse_int}
use recsys_pipeline.Stock.{parsed, entry, offsets, mark, marks}

-- The marks, by the reply for each offset in place of the reply at each index.
pub marks_with : (ℤ → Reply ℕ) → List (ℕ × ℤ) → List Bool → List Bool
marks_with bit [] include = include
marks_with bit ((index, offset) ∷ entries) include =
    marks_with bit entries (mark (bit offset) index include)

pub plus_zero : (j : ℕ) → j + 0 ≡ j
plus_zero j = omega arith

pub shift : (j k : ℕ) → j + suc k ≡ suc j + k
shift j k = omega arith

pub marks-eq :
    (reply : ℕ → Reply ℕ) (bit : ℤ → Reply ℕ) (j : ℕ) (entries : List (ℕ × ℤ)) (include : List Bool)
    → ((k : ℕ) (o : ℤ) → get_elem? (map (λ e. e.1) entries) k ≡ some o → reply (j + k) ≡ bit o)
    → marks reply j entries include ≡ marks_with bit entries include
unfolding marks marks_with
marks-eq reply bit j [] include h = refl
marks-eq reply bit j ((index, offset) ∷ entries) include h =
    rw (subst (λ n. reply n ≡ bit offset) (plus_zero j) (h zero offset refl)) (
      marks-eq reply bit (suc j) entries (mark (bit offset) index include)
        λ k o e. subst (λ n. reply n ≡ bit o) (shift j k) (h (suc k) o e))

marks_with-append :
    (bit : ℤ → Reply ℕ) (es fs : List (ℕ × ℤ)) (include : List Bool)
    → marks_with bit (es ++ fs) include ≡ marks_with bit fs (marks_with bit es include)
unfolding marks_with
marks_with-append bit [] fs include = refl
marks_with-append bit ((i, o) ∷ es) fs include =
    marks_with-append bit es fs (mark (bit o) i include)

set-append :
    (pre rest : List Bool) (b c : Bool) → set (pre ++ b ∷ rest) (length pre) c ≡ pre ++ c ∷ rest
set-append [] rest b c = refl
set-append (x ∷ pre) rest b c = ap (◌∷◌ x) (set-append pre rest b c)

-- Whether an item stays: by its bit, by its offset, and by its id_map reply.
abbrev pub clear : Reply ℕ → Bool
clear (value bit) = not (bit == 1)
clear missing = true
clear (failed e) = true

abbrev pub clear_at : (ℤ → Reply ℕ) → Option ℤ → Bool
clear_at bit none = true
clear_at bit (some offset) = clear (bit offset)

abbrev pub stays : (ℤ → Reply ℕ) → Reply Text → Bool
stays bit (value digits) = clear_at bit (parse_int digits)
stays bit missing = true
stays bit (failed e) = true

mark-append :
    (bit : Reply ℕ) (pre rest : List Bool)
    → mark bit (length pre) (pre ++ true ∷ rest) ≡ pre ++ clear bit ∷ rest
unfolding mark
mark-append (value bit) pre rest = ground (arith, set-append pre rest true false)
mark-append missing pre rest = refl
mark-append (failed e) pre rest = refl

parsed-marks :
    (bit : ℤ → Reply ℕ) (offset : Option ℤ) (pre rest : List Bool)
    → marks_with bit (parsed (length pre) offset) (pre ++ true ∷ rest)
      ≡ pre ++ clear_at bit offset ∷ rest
unfolding marks_with parsed
parsed-marks bit none pre rest = refl
parsed-marks bit (some offset) pre rest = mark-append (bit offset) pre rest

entry-marks :
    (bit : ℤ → Reply ℕ) (reply : Reply Text) (pre rest : List Bool)
    → marks_with bit (entry (length pre) reply) (pre ++ true ∷ rest) ≡ pre ++ stays bit reply ∷ rest
unfolding marks_with entry
entry-marks bit (value digits) pre rest = parsed-marks bit (parse_int digits) pre rest
entry-marks bit missing pre rest = refl
entry-marks bit (failed e) pre rest = refl

-- The flag of each item, by the reply at its index.
abbrev pub decisions {ℓ} : {A : Type ℓ} → (ℤ → Reply ℕ) → (ℕ → Reply Text) → ℕ → List A → List Bool
decisions bit reply i [] = []
decisions bit reply i (x ∷ xs) = stays bit (reply i) ∷ decisions bit reply (suc i) xs

pub offsets-marks {ℓ} :
    {A : Type ℓ} (bit : ℤ → Reply ℕ) (reply : ℕ → Reply Text) (pre : List Bool) (xs : List A)
    (i : ℕ)
    → i ≡ length pre
    → marks_with bit (offsets reply i xs) (pre ++ replicate (length xs) true)
      ≡ pre ++ decisions bit reply i xs
unfolding offsets marks_with
offsets-marks bit reply pre [] i e = refl
offsets-marks bit reply pre (x ∷ xs) i e =
    marks_with-append bit (entry i (reply i)) (offsets reply (suc i) xs) _
    ∙ ap (marks_with bit (offsets reply (suc i) xs)) (
        subst
          (λ n.
            marks_with bit (entry n (reply i)) (pre ++ true ∷ replicate (length xs) true)
            ≡ pre ++ stays bit (reply i) ∷ replicate (length xs) true)
          (sym e) (entry-marks bit (reply i) pre (replicate (length xs) true))
        ∙ sym (append_assoc pre (stays bit (reply i) ∷ []) (replicate (length xs) true)))
    ∙ offsets-marks bit reply (pre ++ stays bit (reply i) ∷ []) xs (suc i)
        (omega (arith, length-append pre (stays bit (reply i) ∷ [])))
    ∙ append_assoc pre (stays bit (reply i) ∷ []) (decisions bit reply (suc i) xs)
