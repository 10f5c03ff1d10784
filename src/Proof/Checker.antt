-- ===== src/Proof/Checker.antt =====
-- The step checker of src/proofcore.c.
use tabla_rusa_os.Base.{
  ℕ, ◌-◌, Text, Bool, true, false, List, [], ◌∷◌, ◌==◌, ◌&&◌, ◌||◌, if◌then◌else◌, str_eq,
  lower_char, codes, is_empty, take,
}

-- `enum proof_mode`
pub data Mode : Type 0 where
  strict guided educational informal : Mode

-- `enum proof_step_status`
pub data Status : Type 0 where
  valid invalid incomplete unknown : Status

-- `struct proof_state_info` and `struct proof_state`. The texts that only explain are left out;
-- `facts` holds as many texts as `info.assumptions` counts.
pub record Proof : Type 0 where
  pub used : Bool
  pub id : ℕ
  pub name : Text
  pub goal : Text
  pub mode : Mode
  pub facts : List Text
  pub steps : ℕ
  pub status : Status
  pub current : Text

-- `struct proof_step_info`, without its explanation. The number of a free slot is 0.
pub record Step : Type 0 where
  pub id : ℕ
  pub proof_id : ℕ
  pub rule : Text
  pub expression : Text
  pub status : Status

abbrev pub is_space : ℕ → Bool
is_space c = (c == b' ') || ((c == 9) || ((c == 10) || (c == 13)))

unfoldable pub skip_spaces : Text → Text
skip_spaces [] = []
skip_spaces (c ∷ cs) = if is_space c then skip_spaces cs else c ∷ cs

-- The bytes up to the next space, and what follows them.
unfoldable pub word : Text → Text
word [] = []
word (c ∷ cs) = if is_space c then [] else c ∷ word cs

unfoldable pub after_word : Text → Text
after_word [] = []
after_word (c ∷ cs) = if is_space c then c ∷ cs else after_word cs

-- The word, cut to the buffer of `max` bytes, and the rest without leading spaces.
unfoldable pub first_arg : Text → ℕ → Text × Text
unfolding skip_spaces word after_word
first_arg input max =
    let trimmed = skip_spaces input in
    (take (max - 1) (word trimmed), skip_spaces (after_word trimmed))

-- `needle` stands at the start of the text, up to case.
unfoldable pub starts_with : Text → Text → Bool
unfolding lower_char
starts_with text [] = true
starts_with [] (n ∷ ns) = false
starts_with (c ∷ cs) (n ∷ ns) = (lower_char c == lower_char n) && starts_with cs ns

unfoldable pub text_has : Text → Text → Bool
unfolding starts_with
text_has [] needle = is_empty needle
text_has (c ∷ cs) needle = starts_with (c ∷ cs) needle || text_has cs needle

abbrev pub has_text : Text → List Text → Bool
has_text fact [] = false
has_text fact (t ∷ ts) = str_eq t fact || has_text fact ts

abbrev pub is_valid : Status → Bool
is_valid st = elim st [ valid ↦ true | _ ↦ false ]

abbrev pub proves : ℕ → Text → Step → Bool
proves id fact st = (st.proof_id == id) && (is_valid st.status && str_eq st.expression fact)

abbrev pub any_step : (Step → Bool) → List Step → Bool
any_step p [] = false
any_step p (st ∷ sts) = p st || any_step p sts

unfoldable pub proof_has_fact : Proof → List Step → Text → Bool
proof_has_fact p steps fact = has_text fact p.facts || any_step (proves p.id fact) steps

abbrev pub verdict : Bool → Status
verdict b = if b then valid else invalid

abbrev pub partial : Bool → Status
partial b = if b then incomplete else invalid

abbrev pub is_informal : Mode → Bool
is_informal m = elim m [ informal ↦ true | _ ↦ false ]

-- The rule `modus`: the first word of the expression has to be a fact, and the second to hold an
-- arrow.
unfoldable pub check_modus : Proof → List Step → Text → Status
unfolding first_arg
check_modus p steps expr =
    let (left, rest) = first_arg expr 48 in
    let (right, end) = first_arg rest 48 in
    verdict (proof_has_fact p steps left && text_has right (codes "->"))

unfoldable pub check_step : Proof → List Step → Text → Text → Status
unfolding check_modus
check_step p steps rule expr =
    if str_eq rule (codes "assume")
    then valid
    else if str_eq rule (codes "exact")
    then verdict (proof_has_fact p steps expr || str_eq p.goal expr)
    else if str_eq rule (codes "intro")
    then partial (text_has p.goal (codes "->"))
    else if str_eq rule (codes "split")
    then partial (text_has p.goal (codes "and"))
    else if str_eq rule (codes "modus")
    then check_modus p steps expr
    else if str_eq rule (codes "rewrite")
        || (str_eq rule (codes "simplify")
            || (str_eq rule (codes "apply") || str_eq rule (codes "cases")))
    then incomplete
    else if str_eq rule (codes "qed")
    then verdict (proof_has_fact p steps p.goal || str_eq p.current p.goal)
    else if is_informal p.mode
    then unknown
    else invalid
