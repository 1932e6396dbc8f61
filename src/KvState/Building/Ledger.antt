-- ===== src/KvState/Building/Ledger.antt =====
-- What NewDraftKVSurfaceState leaves open.
use autoresearch_mlx_go_ane.Prelude.{
  ℕ, zero, suc, ◌+◌, ◌*◌, ◌≡◌, ◌<◌, refl, ap, List, [], ◌∷◌, Option, none, some, arith, length,
  length-replicate, replicate, eqb_refl,
}
use autoresearch_mlx_go_ane.Prelude.Int.{pos}
use autoresearch_mlx_go_ane.Prelude.Modify.{All}
use autoresearch_mlx_go_ane.Surface.{Surface, ok, err, write, fill, overwrite}
use autoresearch_mlx_go_ane.Surface.Access.{IsLive, overwrite-IsLive}
use autoresearch_mlx_go_ane.KvState.{Layer, State}
use autoresearch_mlx_go_ane.KvState.Steps.{IsLiveLayer, IsValid}
use autoresearch_mlx_go_ane.KvState.Building.{
  AllocEnv, Opened, made, dropped, fill_both, open_pair, closes, join_layer, open_layers, state_of,
  new_draft_kv_surface_state,
}

abbrev pub Closed : {B : Type 0} → Opened B → Type 0
Closed (made b) = Unit
Closed (dropped o c) = o ≡ c

mul_swap : (a b : ℕ) → a * b ≡ b * a
mul_swap a b = grind arith

product_pos : (h d : ℕ) → 0 < suc h * suc d
product_pos h d = grind arith

module _ {A : Type 0} where
  -- A failure has closed all that was opened, and a made layer has both its surfaces.
  abbrev Even : Opened (Layer A) → Type 0
  Even (made l) = closes l ≡ 2
  Even (dropped o c) = o ≡ c

  fill_both-Even : (ks vs : Surface A) (z : A) → Even (fill_both ks vs z)
  unfolding fill_both closes
  fill_both-Even ks vs z =
      elim (fill (some ks) z)
        as (λ r. Even (elim r [
          | err e ↦ dropped 2 2
          | ok ks' ↦ elim (fill (some vs) z) [
            | err e ↦ dropped 2 2
            | ok vs' ↦ made (some ks', some vs')
          ]
        ])) [
          | err e ↦ refl
          | ok ks' ↦
              elim (fill (some vs) z)
                as (λ r.
                  Even (elim r [ err e ↦ dropped 2 2 | ok vs' ↦ made (some ks', some vs') ])) [
                    | err e ↦ refl
                    | ok vs' ↦ refl
                  ]
        ]

  open_pair-Even : (k v : Option (Surface A)) (z : A) → Even (open_pair k v z)
  unfolding open_pair
  open_pair-Even none v z = refl
  open_pair-Even (some ks) none z = refl
  open_pair-Even (some ks) (some vs) z = fill_both-Even ks vs z

  join_layer-Closed :
      (l : Opened (Layer A)) (ls : Opened (List (Layer A)))
      → Even l
      → Closed ls
      → Closed (join_layer l ls)
  unfolding join_layer
  join_layer-Closed (dropped o c) ls e h = e
  join_layer-Closed (made l) (made ls) e h = tt
  join_layer-Closed (made l) (dropped o c) e h = omega arith

  open_layers-Closed :
      (env : AllocEnv A) (z : A) (count i n : ℕ) → Closed (open_layers env z count i n)
  unfolding open_layers
  open_layers-Closed env z count i zero = tt
  open_layers-Closed env z count i (suc n) =
      join_layer-Closed _ _ (open_pair-Even (env.key_surface count i) (env.value_surface count i) z)
        (open_layers-Closed env z count (i + 1) n)

  state_of-Closed :
      (l h d m : ℕ) (ls : Opened (List (Layer A))) → Closed ls → Closed (state_of l h d m ls)
  unfolding state_of
  state_of-Closed l h d m (made ls) c = tt
  state_of-Closed l h d m (dropped o n) c = c

  -- For positive dimensions, whatever the allocations and the fills answer, a
  -- `NewDraftKVSurfaceState` that fails has closed as many surfaces as it opened.
  pub new_draft_kv_surface_state-Closed :
      (env : AllocEnv A) (z : A) (l h d m : ℕ)
      → (r : Opened (State A)) × (new_draft_kv_surface_state env z
            (pos (suc l))
            (pos (suc h))
            (pos (suc d))
            (pos (suc m))
          ≡ some r)
        × Closed r
  unfolding new_draft_kv_surface_state
  new_draft_kv_surface_state-Closed env z l h d m = (
    _,
    refl,
    state_of-Closed (suc l) (suc h) (suc d) (suc m) _
        (open_layers-Closed env z (suc h * suc d * suc m) 0 (suc l)),
  )

  fill-IsLive :
      (n : ℕ) (s : Surface A) (z : A)
      → IsLive n s
      → (t : Surface A) × (fill (some s) z ≡ ok t) × IsLive n t
  unfolding fill write
  fill-IsLive n s z live = (
    record s { cells = overwrite s.cells 0 (replicate s.count z) },
    simp (live.opened, length-replicate s.count z, eqb_refl s.count, live.answering),
    overwrite-IsLive n s 0 (replicate s.count z) live,
  )

  fill_both-IsLiveLayer :
      (n : ℕ) (ks vs : Surface A) (z : A)
      → IsLive n ks
      → IsLive n vs
      → (l : Layer A) × (fill_both ks vs z ≡ made l) × IsLiveLayer n l
  unfolding fill_both
  fill_both-IsLiveLayer n ks vs z hk hv =
      let (k, ek, lk) = fill-IsLive n ks z hk in
      let (v, ev, lv) = fill-IsLive n vs z hv in
      ((some k, some v), rw (ek, ev, fill_both), (lk, lv))

  -- Every allocation answers with a live surface of the asked size.
  pub record Allocates (env : AllocEnv A) : Type 0 where
    pub gives_keys : (n i : ℕ) → (s : Surface A) × (env.key_surface n i ≡ some s) × IsLive n s
    pub gives_values : (n i : ℕ) → (s : Surface A) × (env.value_surface n i ≡ some s) × IsLive n s

  open_layers-IsLiveLayer :
      (env : AllocEnv A) (z : A) (count i n : ℕ)
      → Allocates env
      → (ls : List (Layer A)) × (open_layers env z count i n ≡ made ls)
        × All (IsLiveLayer count) ls
        × (length ls ≡ n)
  unfolding open_layers open_pair join_layer
  open_layers-IsLiveLayer env z count i zero a = ([], refl, tt, refl)
  open_layers-IsLiveLayer env z count i (suc n) a =
      let (ks, ek, lk) = a.gives_keys count i in
      let (vs, ev, lv) = a.gives_values count i in
      let (l, el, ll) = fill_both-IsLiveLayer count ks vs z lk lv in
      let (ls, es, al, len) = open_layers-IsLiveLayer env z count (i + 1) n a in
      (l ∷ ls, simp (ek, ev, el, es), (ll, al), ap suc len)

  -- For positive dimensions, where every allocation answers with a live surface of the asked size,
  -- `NewDraftKVSurfaceState` returns a state in service at position 0.
  pub new_draft_kv_surface_state-IsValid :
      (env : AllocEnv A) (z : A) (l h d m : ℕ)
      → Allocates env
      → (s : State A) × (new_draft_kv_surface_state env z
            (pos (suc l))
            (pos (suc h))
            (pos (suc d))
            (pos (suc m))
          ≡ some (made s))
        × IsValid s
        × (s.position ≡ 0)
  unfolding new_draft_kv_surface_state state_of
  new_draft_kv_surface_state-IsValid env z l h d m a =
      let (ls, es, al, len) = open_layers-IsLiveLayer env z (suc h * suc d * suc m) 0 (suc l) a in
      (
        _,
        ap (λ r. some (state_of (suc l) (suc h) (suc d) (suc m) r)) es,
        record {
          live = al;
          sized = len;
          area = mul_swap (suc h * suc d) (suc m);
          within = omega arith;
          wide = product_pos h d;
        },
        refl,
      )
