-- ===== src/Daemon/OperationHub/Entries/Answers.antt =====
-- The responses that the channels of an entry's prompts are sent.
use kwt.Common.{
  ℕ, ◌+◌, ◌<◌, ◌≡◌, ◌≢◌, inl, inr, refl, sym, subst, true, false, Option, none, some, List, [], ◌∷◌,
  ◌++◌, Text, All, All-append, All-mono, arith, ok,
}
use kwt.Service.{Error}
use kwt.Service.Operation.{OperationResponse}
use kwt.Daemon.OperationHub.Types.{Entry, PromptState}
use kwt.Daemon.OperationHub.Events.Prompts.{KeepsPrompt}
use kwt.Daemon.OperationHub.Entries.{end_prompt, asked, respond_to}

abbrev Answers : Type 0
Answers = List (ℕ × OperationResponse)

-- No two responses are for one prompt.
abbrev pub IsDistinct : List (ℕ × OperationResponse) → Type 0
IsDistinct [] = Unit {0}
IsDistinct (a ∷ rs) = All (λ b. b.0 ≢ a.0) rs × IsDistinct rs

-- The current prompt is one of those made, and has no response as long as it says so.
abbrev pub IsCurrent : ℕ → List (ℕ × OperationResponse) → Option PromptState → Type 0
IsCurrent prompts rs none = Unit {0}
IsCurrent prompts rs (some p) =
    (p.ref < prompts) × (p.responded ≡ false → All (λ a. a.0 ≢ p.ref) rs)

abbrev pub AreAnswered : ℕ → List (ℕ × OperationResponse) → Option PromptState → Type 0
AreAnswered prompts rs p = All (λ a. a.0 < prompts) rs × IsDistinct rs × IsCurrent prompts rs p

-- Each prompt was sent one response at most.
abbrev pub IsAnswered : Entry → Type 0
IsAnswered e = AreAnswered e.prompts e.answers e.prompt

IsDistinct-append :
    (rs : Answers) (n : ℕ) (r : OperationResponse)
    → IsDistinct rs
    → All (λ a. a.0 ≢ n) rs
    → IsDistinct (rs ++ (n, r) ∷ [])
IsDistinct-append [] n r d h = (tt, tt)
IsDistinct-append (a ∷ rs) n r (d, ds) (h, hs) = (
  All-append (λ b. b.0 ≢ a.0) rs ((n, r) ∷ []) d ((λ e. h (sym e)), tt),
  IsDistinct-append rs n r ds hs,
)

pub KeepsPrompt-IsAnswered : (e f : Entry) → KeepsPrompt e f → IsAnswered e → IsAnswered f
KeepsPrompt-IsAnswered e f (n, a, inl same) w =
    subst (λ p. AreAnswered f.prompts f.answers p) (sym same)
      (subst (λ rs. AreAnswered f.prompts rs e.prompt) (sym a)
        (subst (λ m. AreAnswered m e.answers e.prompt) (sym n) w))
KeepsPrompt-IsAnswered e f (n, a, inr gone) (below, distinct, current) =
    subst (λ p. AreAnswered f.prompts f.answers p) (sym gone)
      (subst (λ rs. AreAnswered f.prompts rs none) (sym a)
        (subst (λ m. AreAnswered m e.answers none) (sym n) (below, distinct, tt)))

abbrev unchanged : (e : Entry) → KeepsPrompt e e
unchanged e = (refl, refl, inl refl)

pub end_prompt-KeepsPrompt : (ref : ℕ) (e : Entry) → KeepsPrompt e (end_prompt ref e)
unfolding end_prompt
end_prompt-KeepsPrompt ref e = ground arith

pub asked-KeepsPrompt :
    (ref : ℕ) (e : Entry) (f : Option Error) → KeepsPrompt e (asked ref e f).entry
unfolding asked
asked-KeepsPrompt ref e none = (refl, refl, inl refl)
asked-KeepsPrompt ref e (some f) = end_prompt-KeepsPrompt ref e

-- A new prompt has a number that no response has.
pub prompting-IsAnswered :
    (e : Entry) (id : Text)
    → IsAnswered e
    → AreAnswered
        (e.prompts + 1)
        e.answers
        (some (record { ref = e.prompts; id = id; responded = false }))
prompting-IsAnswered e id (below, distinct, current) = (
  All-mono (λ a. a.0 < e.prompts) (λ a. a.0 < e.prompts + 1) e.answers (λ a h. omega (arith, h))
      below,
  distinct,
  (
    omega arith,
    λ _.
        All-mono (λ a. a.0 < e.prompts) (λ a. a.0 ≢ e.prompts) e.answers (λ a h. omega (arith, h))
          below,
  ),
)

answered :
    (r : OperationResponse) (e f : Entry) (x : Option PromptState)
    → e.prompt ≡ x
    → respond_to r e ≡ ok f
    → AreAnswered e.prompts e.answers x
    → IsAnswered f
unfolding respond_to
answered r e f none s h w = ground arith
answered r e f (some p) s h (below, distinct, (made, unanswered)) =
    let waiting : p.responded ≡ false = ground arith in
    let more : Answers = e.answers ++ (p.ref, r) ∷ [] in
    let prompts : f.prompts ≡ e.prompts = ground arith in
    let answers : f.answers ≡ more = ground arith in
    let current : f.prompt ≡ some (record p { responded = true }) = ground arith in
    subst (λ q. AreAnswered f.prompts f.answers q) (sym current)
      (subst (λ rs. AreAnswered f.prompts rs (some (record p { responded = true }))) (sym answers)
        (subst (λ m. AreAnswered m more (some (record p { responded = true }))) (sym prompts)
          (
            All-append (λ a. a.0 < e.prompts) e.answers ((p.ref, r) ∷ []) below (made, tt),
            IsDistinct-append e.answers p.ref r distinct (unanswered waiting),
            (made, λ again. absurd (cc again)),
          )))

pub respond_to-IsAnswered :
    (r : OperationResponse) (e f : Entry) → respond_to r e ≡ ok f → IsAnswered e → IsAnswered f
respond_to-IsAnswered r e f h w = answered r e f e.prompt refl h w
