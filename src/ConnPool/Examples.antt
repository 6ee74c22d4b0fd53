-- ===== src/ConnPool/Examples.antt =====
-- The connection pool's theorems at a pool of two connections.
use hyper_gnomon.Base.{
  ℕ, ◌⊎◌, Bool, ◌≡◌, refl, arith, List, [], ◌∷◌, true, false, Option, some, ◌==◌,
}
use hyper_gnomon.Chan.{receive}
use hyper_gnomon.ConnPool.{
  Pool, Dialed, connected, refused, created, not_created, conn, put_done, used,
}
use hyper_gnomon.ConnPool.{new_pool, get, put, close_pool, with_conn}
use hyper_gnomon.ConnPool.Conservation.{
  Step, borrows, gives_back, closes, Reach, here, then_step, Conserves, count, with_conn-gives_back,
}
use hyper_gnomon.ConnPool.Creation.{
  history-Conserves, history-all_shut, new_pool_cases, IsFilled, FirstRefusal, dialed_count,
}

abbrev dialed : List (Dialed ℕ ℕ)
dialed = connected 1 ∷ connected 2 ∷ []

abbrev fresh : Pool ℕ
fresh = record {
  conns = record { buffer = 1 ∷ 2 ∷ []; capacity = 2; is_closed = false };
  size = 2;
  closed = false;
  shut = [];
}

fresh_created : new_pool 2 dialed ≡ created fresh
unfolding new_pool
fresh_created = refl

abbrev taken : Pool ℕ
taken = record fresh { conns = record { buffer = 2 ∷ []; capacity = 2; is_closed = false } }

abbrev half_shut : Pool ℕ
half_shut = record {
  conns = record { buffer = []; capacity = 2; is_closed = true };
  size = 2;
  closed = true;
  shut = 2 ∷ [];
}

abbrev all_gone : Pool ℕ
all_gone = record half_shut { shut = 2 ∷ 1 ∷ [] }

one_borrowed : get fresh ≡ conn 1 taken
unfolding get receive
one_borrowed = refl

late_return : put (some 1) half_shut ≡ put_done all_gone
unfolding put
late_return = refl

taken_closes :
    Step (record { pool = taken; lent = 1 ∷ [] }) (record { pool = half_shut; lent = 1 ∷ [] })
unfolding close_pool
taken_closes = closes taken (1 ∷ [])

history : Reach (record { pool = fresh; lent = [] }) (record { pool = all_gone; lent = [] })
history =
    then_step _ (record { pool = half_shut; lent = 1 ∷ [] }) _
      (then_step _ (record { pool = taken; lent = 1 ∷ [] }) _
        (then_step _ (record { pool = fresh; lent = [] }) _ (here _)
          (borrows fresh taken 1 [] one_borrowed))
        taken_closes)
      (gives_back half_shut all_gone 1 [] [] late_return)

history-Conserves_example : Conserves (1 ∷ 2 ∷ []) (record { pool = all_gone; lent = [] })
history-Conserves_example =
    history-Conserves 2 dialed fresh (record { pool = all_gone; lent = [] }) refl fresh_created
      history

history-all_shut_example :
    count (λ (c : ℕ). c == 1) (2 ∷ 1 ∷ []) ≡ count (λ (c : ℕ). c == 1) (1 ∷ 2 ∷ [])
history-all_shut_example =
    history-all_shut 2 dialed fresh (record { pool = all_gone; lent = [] }) refl fresh_created
      history refl refl (λ (c : ℕ). c == 1)

abbrev half_dialed : List (Dialed ℕ ℕ)
half_dialed = connected 1 ∷ refused 7 ∷ []

new_pool_cases_example :
    ((p : Pool ℕ) × (new_pool 2 half_dialed ≡ created p) × IsFilled 2 half_dialed p)
    ⊎ ((e : ℕ) × (shut : List ℕ) × (new_pool 2 half_dialed ≡ not_created e shut)
        × FirstRefusal half_dialed e
        × ((f : ℕ → Bool) → count f shut ≡ dialed_count f half_dialed))
new_pool_cases_example = new_pool_cases 2 half_dialed

abbrev refuses : ℕ → Pool ℕ → Option ℕ × Pool ℕ
refuses c p = (some 9, p)

taken-Conserves : Conserves (1 ∷ 2 ∷ []) (record { pool = taken; lent = 1 ∷ [] })
taken-Conserves = record {
  agree = refl;
  emptied = λ e. cc;
  capacity = refl;
  conserved = λ f. omega arith;
}

with_conn-gives_back_example :
    (r : Pool ℕ) × ((with_conn refuses fresh ≡ used (some 9) r)
      × Conserves (1 ∷ 2 ∷ []) (record { pool = r; lent = [] }))
with_conn-gives_back_example =
    with_conn-gives_back refuses (1 ∷ 2 ∷ []) fresh taken 1 [] one_borrowed taken-Conserves
