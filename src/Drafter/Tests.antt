-- ===== src/Drafter/Tests.antt =====
-- A model whose state is its tokens, with the newest one before the position moves, and a reference
-- that keeps its tokens in the cache. Both prefer token 1 after 0, and 0 after all else.
use autoresearch_mlx_go_ane.Prelude.{
  ℕ, zero, suc, ◌-◌, ◌≤◌, ◌≡◌, refl, ◌∙◌, ap, sym, true, false, List, [], ◌∷◌, Option, none, some,
  inl, inr, length, drop, ltb, arith,
}
use mathlib.Core.Option.{some-injective}
use autoresearch_mlx_go_ane.Layer.{Result, good}
use autoresearch_mlx_go_ane.Speculative.{argmax_float32}
use autoresearch_mlx_go_ane.Drafter.Runner.{ReferenceBackend}
use autoresearch_mlx_go_ane.Drafter.State.{Engine, Setup, Drafter, next_token_from_output}
use autoresearch_mlx_go_ane.Drafter.Feed.{feed_token, feed_all}
use autoresearch_mlx_go_ane.Drafter.Calls.{
  maybe_enable_reference_only, ensure_token_state, draft_tokens, draft, rewind_drafter,
}
use autoresearch_mlx_go_ane.Drafter.Fresh.{prefill}
use autoresearch_mlx_go_ane.Drafter.Contract.{Contract, IsSound}
use autoresearch_mlx_go_ane.Drafter.Answers.{Answer}
use autoresearch_mlx_go_ane.Drafter.Greedy.{draft-IsGreedy}
use autoresearch_mlx_go_ane.Drafter.Shorter.{Shortened, rewind-Shortened}
use autoresearch_mlx_go_ane.Drafter.Session.{Round, rewind-draft, Started, prefill-Started}

abbrev pub after_token : ℕ → List ℕ
after_token zero = 0 ∷ 1 ∷ []
after_token (suc t) = 1 ∷ 0 ∷ []

abbrev pub after : List ℕ → List ℕ
after [] = []
after (t ∷ h) = after_token t

abbrev pub toy_engine : Engine (ℕ × List ℕ) (List ℕ) ℕ ℕ ℕ
toy_engine = record {
  reset_state = λ m. ((0, []), none);
  eval_token = λ m x. ((x, m.1), good (after_token x));
  advance_position = λ m. ((m.0, m.0 ∷ m.1), none);
  rewind_position = λ m n. ((m.0, drop n m.1), none);
  snapshot_state = λ m. good m.1;
  restore_state = λ m s. ((m.0, s), none);
}

abbrev pub toy_backend : ReferenceBackend (List ℕ) ℕ ℕ
toy_backend = record {
  new_cache = some [];
  forward = some (λ c t. good (t ∷ c, good (after_token t)));
  trim = λ c. none;
  no_model = 7;
}

abbrev pub toy : Setup (ℕ × List ℕ) (List ℕ) ℕ (List ℕ) ℕ ℕ
toy = record {
  engine = toy_engine;
  backend = toy_backend;
  floats = record {
    gt = λ a b. ltb b a;
    plus = λ a b. a;
    times = λ a b. a;
    nought = 0;
    lowest = 0;
  };
  embed_token = some (λ t. good t);
  split_taps = none;
  hidden_dim = 5;
  vocab_size = 2;
  embeddings = [];
  lm_proj = [];
  lm_bias = [];
  use_ref_logits = false;
  auto_ref_guard = true;
  low_confidence = false;
  prefer_reference_only = false;
  direct_model_ir = true;
  cap_low_confidence = false;
}

pub good_of : {A : Type 0} (a b : A) → ◌≡◌ {A = Result ℕ A} (good a) (good b) → a ≡ b
good_of a b e = cc

pub untrimmed :
    (c : List ℕ) (h : List ℕ) (f : ℕ → List ℕ) (n : ℕ)
    → c ≡ h
    → ◌≡◌ {A = Option (ℕ → List ℕ)} none (some f)
    → n ≤ length h
    → f (length h - n) ≡ drop n h
untrimmed c h f n k e b = cc

pub unfailed :
    (m m' : ℕ × List ℕ) (e : ℕ) (A : Type 0)
    → ◌≡◌ {A = (ℕ × List ℕ) × Option ℕ} (m, none) (m', some e)
    → A
unfailed m m' e A q = absurd (apart (ap (λ (p : (ℕ × List ℕ) × Option ℕ). p.1) q))
  where
    apart : ◌≡◌ {A = Option ℕ} none (some e) → ⊥
    apart x = cc

-- A forward pass of the reference.
forward_toy :
    (f : List ℕ → ℕ → Result ℕ (List ℕ × Result ℕ (List ℕ))) (c c' : List ℕ) (t : ℕ) (h : List ℕ)
    (l : Result ℕ (List ℕ))
    → toy.backend.forward ≡ some f
    → c ≡ h
    → f c t ≡ good (c', l)
    → (c' ≡ t ∷ h) × ((v : List ℕ) → l ≡ good v → v ≡ after_token t)
forward_toy f c c' t h l e k q =
    let f_is : (λ d u. good (u ∷ d, good (after_token u))) ≡ f = some-injective _ _ e in
    let p : (t ∷ c, good (after_token t)) ≡ (c', l) =
      good_of _ _
        (ap (λ (g : List ℕ → ℕ → Result ℕ (List ℕ × Result ℕ (List ℕ))). g c t) f_is ∙ q) in
    (
      sym (λ i. (p i).0) ∙ ap (λ (g : List ℕ). t ∷ g) k,
      λ v r. sym (good_of _ _ ((λ i. (p i).1) ∙ r)),
    )

-- An evaluation and a move of the position.
pub evaluate_toy :
    (embed : ℕ → Result ℕ ℕ) (m m' : ℕ × List ℕ) (t : ℕ) (h : List ℕ) (x : ℕ) (out v : List ℕ)
    → toy.embed_token ≡ some embed
    → embed t ≡ good x
    → m.1 ≡ h
    → toy.engine.eval_token m x ≡ (m', good out)
    → ◌≡◌ {A = Result ℕ (List ℕ)} (good out) (good v)
    → (v ≡ after_token t)
      × ((m'' : ℕ × List ℕ) → toy.engine.advance_position m' ≡ (m'', none) → m''.1 ≡ t ∷ h)
evaluate_toy embed m m' t h x out v e g k q r =
    let embed_is : (λ u. good u) ≡ embed = some-injective _ _ e in
    let x_is : t ≡ x = good_of t x (ap (λ (f : ℕ → Result ℕ ℕ). f t) embed_is ∙ g) in
    let out_is : after_token x ≡ out = good_of _ _ (λ i. (q i).1) in
    let token : m'.0 ≡ t = sym (λ i. (q i).0.0) ∙ sym x_is in
    let past : m'.1 ≡ h = sym (λ i. (q i).0.1) ∙ k in
    (
      sym (good_of _ _ r) ∙ sym out_is ∙ ap after_token (sym x_is),
      λ m'' a. sym (λ i. (a i).0.1) ∙ (λ i. token i ∷ past i),
    )

abbrev toy_law : Contract toy
toy_law = record {
  Holds = λ m h. m.1 ≡ h;
  HoldsCache = λ c h. c ≡ h;
  HoldsSnapshot = λ s h. s ≡ h;
  model_logits = after;
  reference_logits = after;
  first_cache = [];
  is_first = refl;
  starts = refl;
  forwards = forward_toy;
  trims = untrimmed;
  resets = λ m m' e. sym (λ i. (e i).0.1);
  evaluates = evaluate_toy;
  snapshots = λ m s h k e. sym (good_of m.1 s e) ∙ k;
  restores = λ m m' s g h k f e. sym (λ i. (e i).0.1) ∙ f;
  rewinds = λ m m' n h k e. sym (λ i. (e i).0.1) ∙ ap (drop n) k;
  restore_fails = λ m m' m'' s n h e k q r. unfailed _ m' e (m''.1 ≡ drop n h) q;
}

-- Token 1 is in the history, and the drafter starts with the model.
abbrev pub started : Drafter (ℕ × List ℕ) (List ℕ) (List ℕ) ℕ
started = record {
  model = some (1, 1 ∷ []);
  reference = none;
  recorder = none;
  reference_only = false;
  guard_triggered = false;
  logged_draft_cap = false;
  drafted_count = 0;
  rewound_count = 0;
  state_corrections = 0;
  model_snapshots = [];
  history = 1 ∷ [];
  last_logits = 1 ∷ 0 ∷ [];
}

started-IsSound : IsSound toy_law started
started-IsSound = record { in_step = ((1, 1 ∷ []), refl, refl); aware = λ e. inr refl }

drafts_three : (draft toy started (good 0) 3).1 ≡ good (1 ∷ 0 ∷ 1 ∷ [])
unfolding draft maybe_enable_reference_only ensure_token_state draft_tokens feed_token
    next_token_from_output argmax_float32
drafts_three = refl

draft-IsGreedy_example :
    Answer toy_law started 0 3 (1 ∷ 0 ∷ 1 ∷ []) (draft toy started (good 0) 3).0
draft-IsGreedy_example =
    draft-IsGreedy toy_law started 0 3 (1 ∷ 0 ∷ 1 ∷ []) started-IsSound
      (inl (refl, λ m h k. (m.1, refl))) drafts_three

-- Two of the three tokens are accepted.
rewinds_one : (rewind_drafter toy (draft toy started (good 0) 3).0 1).1 ≡ none
unfolding draft maybe_enable_reference_only ensure_token_state draft_tokens feed_token
    next_token_from_output argmax_float32 rewind_drafter
rewinds_one = refl

rewind-draft_example :
    Round toy_law started 0
      (1 ∷ 0 ∷ [])
      (1 ∷ [])
      (rewind_drafter toy (draft toy started (good 0) 3).0 1).0
rewind-draft_example =
    rewind-draft toy_law started 0 3 (1 ∷ 0 ∷ []) (1 ∷ []) started-IsSound
      (inl (refl, λ m h k. (m.1, refl))) drafts_three rewinds_one

-- A prompt of two tokens.
prefills : (prefill toy started (good (1 ∷ 0 ∷ []))).1 ≡ none
unfolding prefill feed_all feed_token
prefills = refl

prefill-Started_example : Started toy_law (1 ∷ 0 ∷ []) (prefill toy started (good (1 ∷ 0 ∷ []))).0
prefill-Started_example = prefill-Started toy_law started (1 ∷ 0 ∷ []) ((1, 1 ∷ []), refl) prefills

rewind-Shortened_example : Shortened toy_law started 1 (rewind_drafter toy started 1).0
unfolding rewind_drafter
rewind-Shortened_example =
    rewind-Shortened toy_law started 1 1 (omega arith) started-IsSound (λ e. tt) refl
