-- ===== src/Session/Names.antt =====
-- The table of names of pssh_stat_str (src/pssh.c) against the names of the states.
use text.Mathlib.Text.{◌==◌}
use Prim.Native.String.{String}
use libpssh.Prelude.{◌≡◌, refl, true, false, List, [], ◌∷◌, Option, none, some, get_elem?}
use libpssh.Session.{
  Stat, error, idle, wait_resolve, resolved, wait_conn, done_conn, wait_sess, wait_auth, connected,
  Entry,
}
use libpssh.Session.Api.{stat_code, stat_names, pssh_stat_str}

-- Which state each name stands for, in no order that matters.
abbrev words : List (String × Stat)
words =
    ("PSSH_STAT_NONE", idle)
    ∷ ("PSSH_STAT_WAIT_RESOLVE", wait_resolve)
    ∷ ("PSSH_STAT_RESOLVED", resolved)
    ∷ ("PSSH_STAT_WAIT_CONN", wait_conn)
    ∷ ("PSSH_STAT_DONE_CONN", done_conn)
    ∷ ("PSSH_STAT_WAIT_SESS", wait_sess)
    ∷ ("PSSH_STAT_WAIT_AUTH", wait_auth)
    ∷ ("PSSH_STAT_CONNECTED", connected)
    ∷ ("PSSH_STAT_ERROR", error)
    ∷ []

unfoldable pub look_up : List (String × Stat) → String → Option Stat
look_up [] n = none
look_up ((m, s) ∷ ws) n = let rest = look_up ws n in elim (m == n) [ true ↦ some s | false ↦ rest ]

abbrev pub stat_named : String → Option Stat
stat_named n = look_up words n

name_of :
    (s : Stat)
    → (n : String) × (get_elem? stat_names (stat_code s) ≡ some n) × (stat_named n ≡ some s)
unfolding stat_code look_up
name_of error = (_, refl, refl)
name_of idle = (_, refl, refl)
name_of wait_resolve = (_, refl, refl)
name_of resolved = (_, refl, refl)
name_of wait_conn = (_, refl, refl)
name_of done_conn = (_, refl, refl)
name_of wait_sess = (_, refl, refl)
name_of wait_auth = (_, refl, refl)
name_of connected = (_, refl, refl)

-- pssh_stat_str never reads past its table, and the name that it gives is the one of the entry's state:
-- a reader who knows what each name stands for, and nothing of the table, gets the state back.
pub stat_str-stat_named :
    (e : Entry) → (n : String) × (pssh_stat_str e ≡ some n) × (stat_named n ≡ some e.stat)
unfolding pssh_stat_str
stat_str-stat_named e = name_of e.stat
