-- ===== src/Client/Batch/Plan.antt =====
-- What the list of a group of example/ex.c is to hold, server by server, written out.
use libpssh.Prelude.{
  ℕ, ◌+◌, ◌*◌, ◌/◌, ◌%◌, ◌<◌, ◌≡◌, refl, ap, ◌∙◌, List, [], ◌∷◌, ◌++◌, map, none, All, arith,
}
use libpssh.Task.{Task, TaskStat, Payload, copy, to_serv, idle}
use libpssh.Task.Api.{no_info}
use libpssh.Client.Files.{
  etc, etc_profile, etc_passwd, etc_hosts, tmp_profile, tmp_passwd, tmp_hosts, members, server_name,
  copies_for,
}

-- What a task is to do: the server, the copy, the state, the timeout.
abbrev pub Row : Type 0
Row = List ℕ × Payload × TaskStat × ℕ

abbrev pub row_of : Task → Row
row_of t = (t.hostname, t.payload, t.stat, t.timeout)

-- An idle copy of a file to a server, with a timeout of 15 seconds.
abbrev pub row : List ℕ → List ℕ → List ℕ → Row
row name l_fn r_fn = (
  name,
  copy (record { dir = to_serv; l_fn = l_fn; r_fn = r_fn; buf = none; tcnt = 0; st = no_info }),
  idle,
  15,
)

-- "www<j><i>.mlan"
abbrev pub www : ℕ → ℕ → List ℕ
www j i = 119 ∷ 119 ∷ 119 ∷ (48 + j) ∷ (48 + i) ∷ 46 ∷ 109 ∷ 108 ∷ 97 ∷ 110 ∷ []

-- The tasks of one server: the copy of /etc alone, or the four copies.
abbrev pub alone : List ℕ → List Row
alone name = row name etc tmp_profile ∷ []

abbrev pub four : List ℕ → List Row
four name =
    row name etc tmp_profile
    ∷ row name etc_profile tmp_profile
    ∷ row name etc_passwd tmp_passwd
    ∷ row name etc_hosts tmp_hosts
    ∷ []

-- The tasks of a group.
unfoldable pub plan : ℕ → List Row
plan j =
    four (www j 1)
    ++ alone (www j 2)
    ++ four (www j 3)
    ++ alone (www j 4)
    ++ four (www j 5)
    ++ four (www j 6)
    ++ four (www j 7)
    ++ four (www j 8)
    ++ four (www j 9)

abbrev pub row_for : List ℕ → List ℕ × List ℕ → Row
row_for name (l_fn, r_fn) = row name l_fn r_fn

abbrev pub rows_of : (ℕ → List ℕ) → List ℕ → List Row
rows_of f [] = []
rows_of f (i ∷ is) = map (row_for (f i)) (copies_for i) ++ rows_of f is

pub rows-cong :
    (f g : ℕ → List ℕ) (is : List ℕ) → All (λ i. f i ≡ g i) is → rows_of f is ≡ rows_of g is
rows-cong f g [] a = refl
rows-cong f g (i ∷ is) a =
    ap (λ n. map (row_for n) (copies_for i) ++ rows_of f is) a.0
    ∙ ap (◌++◌ (map (row_for (g i)) (copies_for i))) (rows-cong f g is a.1)

pub map-cong : (f g : ℕ → List ℕ) (is : List ℕ) → All (λ i. f i ≡ g i) is → map f is ≡ map g is
map-cong f g [] a = refl
map-cong f g (i ∷ is) a = cc (a.0, map-cong f g is a.1)

pub map-append : (xs ys : List Task) → map row_of (xs ++ ys) ≡ map row_of xs ++ map row_of ys
map-append [] ys = refl
map-append (x ∷ xs) ys = ap (◌∷◌ (row_of x)) (map-append xs ys)

server_name-www : (j i : ℕ) → i < 10 → server_name j i ≡ www j i
unfolding server_name
server_name-www j i low =
    let tens : (j * 10 + i) / 10 ≡ j = omega arith in
    let ones : (j * 10 + i) % 10 ≡ i = omega arith in rw (tens, ones) refl

pub All-www : (j : ℕ) (is : List ℕ) → All (λ i. i < 10) is → All (λ i. server_name j i ≡ www j i) is
All-www j [] a = tt
All-www j (i ∷ is) a = (server_name-www j i a.0, All-www j is a.1)

pub members_low : All (λ i. i < 10) members
members_low = (
  omega arith,
  (
    omega arith,
    (
      omega arith,
      (omega arith, (omega arith, (omega arith, (omega arith, (omega arith, (omega arith, tt)))))),
    ),
  ),
)

pub plan_rows : (j : ℕ) → rows_of (www j) members ≡ plan j
unfolding plan copies_for
plan_rows j = refl
