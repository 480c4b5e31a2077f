-- ===== src/Task/Lookup.antt =====
-- pssh_server_add (src/pssh.c) and pssh_find_ent (src/task.c): what is added is found.
use libpssh.Prelude.{
  ℕ, suc, ◌+◌, ◌<◌, ◌≡◌, ◌≢◌, refl, sym, ap, ◌∙◌, false, Bool-cases, inl, inr, List, [], ◌∷◌, ◌++◌,
  Option, some, none, length, str_eq, str_eq_sound, str_eq_refl, ok, arith,
}
use libpssh.Env.{Env}
use libpssh.Session.{Entry, Session, idle}
use libpssh.Session.Sound.{IsSound}
use libpssh.Session.Api.{pssh_server_add, new_entry, hostaddr_len}
use libpssh.Task.Api.{pssh_find_ent, find_from}

-- A place found before, or else this one.
abbrev pub or_at : Option ℕ → ℕ → Option ℕ
or_at none n = some n
or_at (some k) n = some k

find_from-hit :
    (i : ℕ) (es : List Entry) (e : Entry) (srv : List ℕ)
    → e.hostaddr_str ≡ srv
    → find_from i (es ++ e ∷ []) srv ≡ or_at (find_from i es srv) (i + length es)
unfolding find_from
find_from-hit i [] e srv same =
    let here = ap (str_eq e.hostaddr_str) same in
    let sum : i + 0 ≡ i = omega arith in ground (arith, str_eq_refl e.hostaddr_str)
find_from-hit i (x ∷ es) e srv same =
    let rest = find_from-hit (suc i) es e srv same in
    let sum : suc i + length es ≡ i + suc (length es) = omega arith in
    elim (Bool-cases (str_eq x.hostaddr_str srv)) [
      | inl hit ↦ rw hit refl
      | inr miss ↦ rw miss (rest ∙ ap (or_at (find_from (suc i) es srv)) sum)
    ]

find_from-miss :
    (i : ℕ) (es : List Entry) (e : Entry) (srv : List ℕ)
    → str_eq e.hostaddr_str srv ≡ false
    → find_from i (es ++ e ∷ []) srv ≡ find_from i es srv
unfolding find_from
find_from-miss i [] e srv other = rw other refl
find_from-miss i (x ∷ es) e srv other =
    let rest = find_from-miss (suc i) es e srv other in
    elim (Bool-cases (str_eq x.hostaddr_str srv)) [
      | inl hit ↦ rw hit refl
      | inr miss ↦ rw miss rest
    ]

other_name : (xs ys : List ℕ) → ys ≢ xs → str_eq xs ys ≡ false
other_name xs ys ne = elim (Bool-cases (str_eq xs ys)) [
  | inl same ↦ absurd (ne (sym (str_eq_sound xs ys same)))
  | inr differ ↦ differ
]

module _ {W : Type 0} (env : Env W) where
  -- What a session is after a server has been added to `s` as `e`.
  pub record Added (s s' : Session W) (e : Entry) (name : List ℕ) (port : ℕ) : Type 0 where
    pub last : s'.entries ≡ s.entries ++ e ∷ []
    pub sound : IsSound e
    pub named : (e.hostaddr_str ≡ name) × (e.port ≡ port)
    pub fresh : (e.stat ≡ idle) × (e.is_reported ≡ false) × (e.ssh_sess_started ≡ false)
    pub handle : e.ssh_sess ≡ (env.session_init s.world).0
    pub asked : s'.world ≡ env.resolve_ipv4 (env.session_init s.world).1 name s.core.no_search
    pub same_core : s'.core ≡ s.core
    pub found :
        pssh_find_ent s'.entries name ≡ or_at (pssh_find_ent s.entries name) (length s.entries)
    pub others :
        (srv : List ℕ) → srv ≢ name → pssh_find_ent s'.entries srv ≡ pssh_find_ent s.entries srv

  -- A server whose name fits is added last, under its name and port, with a new handle of libssh2, sound and
  -- with nothing begun, and its name is given to evdns; the servers before it and the session's own fields
  -- stay as they are. pssh_find_ent finds the name where it was before, or else at the new place, and
  -- every other name as before.
  pub server_add-find_ent :
      (s : Session W) (name : List ℕ) (port : ℕ)
      → length name < hostaddr_len
      → (s' : Session W) × (e : Entry) × (pssh_server_add env s name port ≡ ok s')
        × Added s s' e name port
  unfolding pssh_server_add pssh_find_ent
  server_add-find_ent s name port fits =
      let handle = env.session_init s.world in
      let e = new_entry name port handle.0 in
      (
        record s {
          entries = s.entries ++ e ∷ [];
          world = env.resolve_ipv4 handle.1 name s.core.no_search;
        },
        e,
        ground arith,
        record {
          last = refl;
          sound = ground arith;
          named = (refl, refl);
          fresh = (refl, refl, refl);
          handle = refl;
          asked = refl;
          same_core = refl;
          found =
              find_from-hit 0 s.entries e name refl
              ∙ ap (or_at (pssh_find_ent s.entries name)) (omega arith);
          others = λ srv ne. find_from-miss 0 s.entries e srv (other_name name srv ne);
        },
      )
