-- ===== src/Session/Walk.antt =====
-- What a user sees of the list of servers (src/pssh.c): pssh_server_first followed by pssh_server_next visits each of them once, in that order.
use libpssh.Prelude.{
  ℕ, zero, suc, ◌+◌, ◌≡◌, refl, List, [], ◌∷◌, Option, some, none, length, ltb, arith,
  if◌then◌else◌,
}
use libpssh.Session.{Session}
use libpssh.Session.Api.{pssh_server_first, pssh_server_next}

-- The places i, i + 1, ..., n of them.
unfoldable pub places : ℕ → ℕ → List ℕ
places i zero = []
places i (suc n) = i ∷ places (suc i) n

module _ {W : Type 0} where
  -- The places that `pssh_server_next` gives after one, in `n` calls at most.
  unfoldable pub visits : ℕ → Session W → Option ℕ → List ℕ
  visits zero s i = []
  visits (suc n) s none = []
  visits (suc n) s (some i) = let r = pssh_server_next s in i ∷ visits n r.0 r.1

  abbrev at : Session W → ℕ → Option ℕ
  at s i = if ltb i (length s.entries) then some i else none

  visits_from :
      (n i : ℕ) (s : Session W)
      → i + n ≡ length s.entries
      → s.core.curr_server ≡ at s i
      → visits (suc n) s (at s i) ≡ places i n
  unfolding visits pssh_server_next places
  visits_from zero i s e c = ground arith
  visits_from (suc n) i s e c = ground (
    arith,
    visits_from n (suc i) (record s { core = record s.core { curr_server = at s (suc i) } })
        (omega arith) refl,
  )

  -- The walk from pssh_server_first on visits every server once, in the order in which they were
  -- added, and then ends.
  pub first-next_visits_all :
      (s : Session W)
      → let r = pssh_server_first s in
        visits (suc (length s.entries)) r.0 r.1 ≡ places 0 (length s.entries)
  unfolding pssh_server_first
  first-next_visits_all s =
      visits_from (length s.entries) 0 (record s { core = record s.core { curr_server = at s 0 } })
        (omega arith) refl
