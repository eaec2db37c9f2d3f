-- ===== src/Brewing/Link/Bind.antt =====
-- Requests in front of the rest of a chain: laws that bring the source's chains into lists of
-- requests.
use hacs_xbloom.Brewing.Link.Steps.{Request, ask, ask_all}
use hacs_xbloom.Prelude.{refl, inl, inr, List, ◌∷◌, ◌≡◌, [], false, true, ◌++◌, ◌∙◌, ◌⊎◌, ap}
use hacs_xbloom.Brewing.Link.{
  ◌>>=◌, ◌>>◌, done, failed, Line, Outcome, Chain, Sent, Action, continue, give, Failure,
  check_connected, not_connected,
}

-- Requests, and then the rest of a chain.
abbrev pub ask_then {ℓ} : {A : Type ℓ} → Line → List Request → Chain A → Chain A
ask_then line [] k = k
ask_then line (r ∷ rs) k = do ask line r; ask_then line rs k

right_unit : (r : Outcome {0} Unit × Sent) → r ≡ continue r (λ _. give tt)
right_unit (done a, s) = refl
right_unit (failed f, s) = refl

pub ask_then-ask :
    (line : Line) (rs : List Request) (r : Request)
    → ask_then line rs (ask line r) ≡ ask_all line (rs ++ r ∷ [])
ask_then-ask line [] r = λ i s. right_unit (ask line r s) i
ask_then-ask line (q ∷ rs) r = ap (λ k. ask line q >> k) (ask_then-ask line rs r)

-- The rest of a chain runs when the requests have all gone through, and else the chain ends there.
abbrev pub Proceeds {ℓ} :
    {A : Type ℓ} → Outcome {0} Unit × Sent → Chain A → Outcome A × Sent → Type ℓ
Proceeds r k result =
    (r.0 ≡ done tt) × (result ≡ k r.1)
    ⊎ ((f : Failure) × (r.0 ≡ failed f) × (result ≡ (failed f, r.1)))

proceed {ℓ} :
    {A : Type ℓ} (r : Outcome {0} Unit × Sent) (all : Action) (k rest : Chain A)
    → ((s : Sent) → Proceeds (all s) k (rest s))
    → Proceeds (continue r (λ _. all)) k (continue r (λ _. rest))
proceed (done a, s) all k rest h = h s
proceed (failed f, s) all k rest h = inr (f, refl, refl)

pub ask_then-Proceeds {ℓ} :
    {A : Type ℓ} (line : Line) (rs : List Request) (k : Chain A) (s : Sent)
    → Proceeds (ask_all line rs s) k (ask_then line rs k s)
ask_then-Proceeds line [] k s = inl (refl, refl)
ask_then-Proceeds line (r ∷ rs) k s =
    proceed (ask line r s) (ask_all line rs) k (ask_then line rs k)
      (λ t. ask_then-Proceeds line rs k t)

continue_assoc {ℓ κ μ} :
    {A : Type ℓ} {B : Type κ} {C : Type μ} (r : Outcome A × Sent) (f : A → Chain B)
    (g : B → Chain C)
    → continue (continue r f) g ≡ continue r (λ a s. continue (f a s) g)
continue_assoc (done a, s) f g = refl
continue_assoc (failed e, s) f g = refl

-- What follows a chain can be taken into it, behind its requests.
pub ask_then-bind {ℓ κ} :
    {A : Type ℓ} {B : Type κ} (line : Line) (rs : List Request) (k : Chain A) (g : A → Chain B)
    → (ask_then line rs k >>= g) ≡ ask_then line rs (k >>= g)
ask_then-bind line [] k g = refl
ask_then-bind line (r ∷ rs) k g =
    (λ i s. continue_assoc (ask line r s) (λ _. ask_then line rs k) g i)
    ∙ ap (λ j. ask line r >> j) (ask_then-bind line rs k g)

-- The same for a last request and the value given behind it.
pub ask-give {ℓ} :
    {A : Type ℓ} (line : Line) (r q : Request) (a : A) (g : A → Action)
    → g a ≡ ask line q
    → ((ask line r >> give a) >>= g) ≡ ask_all line (r ∷ q ∷ [])
ask-give line r q a g e =
    (λ i s. continue_assoc (ask line r s) (λ _. give a) g i)
    ∙ ap (λ j. ask line r >> j) (e ∙ λ i s. right_unit (ask line q s) i)

pub ask_then-ask_all :
    (line : Line) (rs qs : List Request)
    → ask_then line rs (ask_all line qs) ≡ ask_all line (rs ++ qs)
ask_then-ask_all line [] qs = refl
ask_then-ask_all line (r ∷ rs) qs = ap (λ k. ask line r >> k) (ask_then-ask_all line rs qs)

-- The check of the link at the start of a chain.
pub check-linked {ℓ} :
    {A : Type ℓ} (line : Line) (k : Chain A) (s : Sent)
    → line.linked ≡ true
    → (check_connected line >> k) s ≡ k s
check-linked line k s up = simp up refl

pub check-unlinked {ℓ} :
    {A : Type ℓ} (line : Line) (k : Chain A) (s : Sent)
    → line.linked ≡ false
    → (check_connected line >> k) s ≡ (failed not_connected, s)
check-unlinked line k s offline = simp offline refl
