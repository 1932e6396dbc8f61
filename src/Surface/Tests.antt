-- ===== src/Surface/Tests.antt =====
-- A surface of four elements.
use autoresearch_mlx_go_ane.Prelude.{ℕ, ◌≡◌, ◌⊎◌, ◌≤◌, ◌+◌, refl, true, [], ◌∷◌, some, arith}
use autoresearch_mlx_go_ane.Prelude.Int.{pos}
use autoresearch_mlx_go_ane.Surface.{Surface, ok, write_at, read_at}
use autoresearch_mlx_go_ane.Surface.Access.{IsLive, read_at-write_at}

abbrev four : Surface ℕ
four = record { is_open = true; count = 4; cells = 0 ∷ 0 ∷ 0 ∷ 0 ∷ []; answers = true }

four-IsLive : IsLive 4 four
four-IsLive = record { opened = refl; answering = refl; counted = refl; full = refl }

read_at-write_at_example :
    (t : Surface ℕ) × (write_at (some four) (pos 1) (7 ∷ 8 ∷ []) ≡ ok t)
    × (read_at (some t) (pos 1) (pos 2) ≡ ok (7 ∷ 8 ∷ []))
    × ((3 + 1 ≤ 1) ⊎ (1 + 2 ≤ 3)
        → read_at (some t) (pos 3) (pos 1) ≡ read_at (some four) (pos 3) (pos 1))
read_at-write_at_example =
    read_at-write_at 4 four 1 7 (8 ∷ []) 3 0 four-IsLive (omega arith) (omega arith)
