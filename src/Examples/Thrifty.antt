-- ===== src/Examples/Thrifty.antt =====
-- A world whose patience is a number that every answer lowers, with commands and files (src/task.c).
use libpssh.Prelude.{
  if◌then◌else◌, ◌==◌, Bool-cases, inl, inr, ℕ, zero, suc, ◌+◌, ◌*◌, ◌<◌, ◌≤◌, ◌≡◌, refl, pos,
  false, List, [], ◌∷◌, some, take, length, length-take, arith,
}
use libpssh.Env.{Env, in_progress, ReadAnswer, got, failed, opened}
use libpssh.Session.Cost.{Patience}
use libpssh.Session.Sound.{EventsAdded}
use libpssh.Task.Thrift.{Thrift}

abbrev letter : List ℕ
letter = 104 ∷ []

-- stderr ends at once; stdout brings a byte for every answer but the last two: the end, and a failure.
abbrev answer : ℕ → ℕ → ℕ → ReadAnswer × ℕ
answer zero i n = (failed 0, zero)
answer (suc w) (suc i) n = (got [], w)
answer (suc zero) zero n = (got [], zero)
answer (suc (suc w)) zero n = (got (take n letter), suc w)

abbrev five : List ℕ
five = 1 ∷ 2 ∷ 3 ∷ 4 ∷ 5 ∷ []

-- A file from the server comes byte by byte, on a channel of its own.
abbrev file_answer : ℕ → ℕ → ReadAnswer × ℕ
file_answer zero n = (failed 0, zero)
file_answer (suc w) n = (got (take n letter), w)

abbrev any_answer : ℕ → ℕ → ℕ → ℕ → ReadAnswer × ℕ
any_answer w c i n = if c == 6 then file_answer w n else answer w i n

abbrev pub thrifty : Env ℕ
thrifty = record {
  eagain = 36;
  event_add = λ w s i t. (pos 0, w);
  event_del = λ w s. w;
  resolv_conf_parse = λ w b. (pos 0, w);
  resolve_ipv4 = λ w n b. w;
  time = λ w. (100, w);
  socket = λ w. (pos 7, w);
  connect = λ w s a p. (in_progress, w);
  getsockopt_error = λ w s. ((pos 0, pos 0), w);
  maxpathlen = 4096;
  inet_aton = λ n. false;
  inet_addr = λ n. pos 0;
  stat = λ w n. (some (record { st_mode = 420; st_size = 5 }), w);
  open_read = λ w n. (some 4, w);
  open_write = λ w n m. (some 4, w);
  read = λ w fd n. (got (take n five), w);
  write = λ w fd bs. (pos (length bs), w);
  is_epipe = λ w. false;
  close = λ w fd. (pos 0, w);
  session_init = λ w. (9, w);
  session_startup = λ w s k. (pos 0, w);
  userauth = λ w s. (pos 0, w);
  last_io_send = λ w s. false;
  last_errno = λ w s. pos 0;
  scp_send = λ w s n m z. (opened 5, w);
  scp_recv = λ w s n. ((opened 6, record { st_mode = 420; st_size = 5 }), w);
  channel_open_session = λ w s. (opened 5, w);
  channel_exec = λ w c n. (pos 0, w);
  channel_write = λ w c bs n. (pos n, w);
  channel_read_ex = λ w c i n. any_answer w c i n;
  channel_exit_status = λ w c. pos 0;
  channel_free = λ w c. w;
  session_disconnect = λ w s. w;
  session_free = λ w s. w;
}

abbrev pub thrifty-EventsAdded : EventsAdded thrifty
thrifty-EventsAdded w s i t = refl

abbrev double : ℕ → ℕ
double w = 2 * w

abbrev pub thrifty-Patience : Patience thrifty
thrifty-Patience = record {
  patience = double;
  event_add_keeps = λ w s i t. omega arith;
  time_keeps = λ w. omega arith;
  socket_keeps = λ w. omega arith;
  connect_keeps = λ w s a p. omega arith;
  getsockopt_keeps = λ w s. omega arith;
  startup_keeps = λ w s k. omega arith;
  startup_again = λ w s k h. cc;
  userauth_keeps = λ w s. omega arith;
  userauth_again = λ w s h. cc;
}

answer_keeps : (w i n : ℕ) → double (answer w i n).1 ≤ double w
answer_keeps zero i n = omega arith
answer_keeps (suc w) (suc i) n = omega arith
answer_keeps (suc zero) zero n = omega arith
answer_keeps (suc (suc w)) zero n = omega arith

answer_within : (w i n : ℕ) (bs : List ℕ) → (answer w i n).0 ≡ got bs → length bs ≤ n
answer_within zero i n bs h = cc
answer_within (suc w) (suc i) n bs h = ground (arith, h)
answer_within (suc zero) zero n bs h = ground (arith, h)
answer_within (suc (suc w)) zero n bs h = ground (arith, h, length-take n letter)

answer_bytes :
    (w i n : ℕ) (bs : List ℕ)
    → (answer w i n).0 ≡ got bs
    → double (answer w i n).1 + length bs ≤ double w
answer_bytes zero i n bs h = cc
answer_bytes (suc w) (suc i) n bs h = ground (arith, h)
answer_bytes (suc zero) zero n bs h = ground (arith, h)
answer_bytes (suc (suc w)) zero n bs h = ground (arith, h, length-take n letter)

answer_code : (w i n k : ℕ) → (answer w i n).0 ≡ failed (suc k) → suc k ≡ 36
answer_code zero i n k h = cc
answer_code (suc w) (suc i) n k h = cc
answer_code (suc zero) zero n k h = cc
answer_code (suc (suc w)) zero n k h = cc

file_keeps : (w n : ℕ) → double (file_answer w n).1 ≤ double w
file_keeps zero n = omega arith
file_keeps (suc w) n = omega arith

file_within : (w n : ℕ) (bs : List ℕ) → (file_answer w n).0 ≡ got bs → length bs ≤ n
file_within zero n bs h = cc
file_within (suc w) n bs h = ground (arith, h, length-take n letter)

file_bytes :
    (w n : ℕ) (bs : List ℕ)
    → (file_answer w n).0 ≡ got bs
    → double (file_answer w n).1 + length bs ≤ double w
file_bytes zero n bs h = cc
file_bytes (suc w) n bs h = ground (arith, h, length-take n letter)

file_some : (w n : ℕ) (bs : List ℕ) → 0 < n → (file_answer w n).0 ≡ got bs → 0 < length bs
file_some zero n bs p h = cc
file_some (suc w) n bs p h = ground (arith, h, p, length-take n letter)

file_code : (w n k : ℕ) → (file_answer w n).0 ≡ failed (suc k) → suc k ≡ 36
file_code zero n k h = cc
file_code (suc w) n k h = cc

file_busy : (w n : ℕ) → (file_answer w n).0 ≡ failed 36 → double (file_answer w n).1 < double w
file_busy zero n h = absurd (ground (arith, h))
file_busy (suc w) n h = cc

answer_busy : (w i n : ℕ) → (answer w i n).0 ≡ failed 36 → double (answer w i n).1 < double w
answer_busy zero i n h = absurd (ground (arith, h))
answer_busy (suc w) (suc i) n h = cc
answer_busy (suc zero) zero n h = cc
answer_busy (suc (suc w)) zero n h = cc

-- Of the two kinds of channel, what holds for both answers.
either :
    (P : ReadAnswer × ℕ → Type 0) (w c i n : ℕ)
    → P (file_answer w n)
    → P (answer w i n)
    → P (any_answer w c i n)
either P w c i n f a = elim (Bool-cases (c == 6)) [ inl y ↦ rw y f | inr z ↦ rw z a ]

unfoldable pub thrifty-Thrift : Thrift thrifty
unfolding either file_keeps answer_keeps file_within answer_within file_some file_bytes answer_bytes
    file_code answer_code file_busy answer_busy
thrifty-Thrift = record {
  conn = thrifty-Patience;
  max_size = 5;
  small = omega arith;
  again_suc = (35, refl);
  stat_keeps = λ w f. omega arith;
  stat_size = λ w f st h. ground (arith, h);
  open_read_keeps = λ w f. omega arith;
  open_write_keeps = λ w f m. omega arith;
  read_keeps = λ w fd n. omega arith;
  read_some = λ w fd n bs p h. ground (arith, p, h, length-take n five);
  write_keeps = λ w fd bs. omega arith;
  close_keeps = λ w fd. omega arith;
  scp_send_keeps = λ w s f m n. omega arith;
  scp_send_again = λ w s f m n h e. cc;
  scp_recv_keeps = λ w s f. omega arith;
  scp_recv_again = λ w s f h e. cc;
  channel_open_keeps = λ w s. omega arith;
  channel_open_again = λ w s h e. cc;
  channel_exec_keeps = λ w c cmd. omega arith;
  channel_exec_again = λ w c s n cmd h e. cc;
  channel_write_keeps = λ w c n bs. omega arith;
  channel_write_within = λ w c n k bs e. ground (arith, e);
  channel_write_nothing = λ w c n bs p e. ground (arith, p, e);
  channel_write_again = λ w c s n k bs h e. cc;
  is_file = λ c. c == 6;
  scp_recv_size = λ w s f. omega arith;
  scp_recv_file = λ w s c f e. ground (arith, e);
  channel_read_keeps =
      λ w c i n. either (λ x. double x.1 ≤ double w) w c i n (file_keeps w n) (answer_keeps w i n);
  channel_read_within = λ w c i n bs.
      either (λ x. x.0 ≡ got bs → length bs ≤ n) w c i n (file_within w n bs)
        (answer_within w i n bs);
  channel_read_file = λ w c n bs is p e. file_some w n bs p (rw is at e);
  channel_read_bytes = λ w c i n bs.
      either (λ x. x.0 ≡ got bs → double x.1 + length bs ≤ double w) w c i n (file_bytes w n bs)
        (answer_bytes w i n bs);
  channel_read_again = λ w c i n s h e. cc;
  channel_read_code = λ w c i n k.
      either (λ x. x.0 ≡ failed (suc k) → suc k ≡ 36) w c i n (file_code w n k)
        (answer_code w i n k);
  channel_read_busy = λ w c i n.
      either (λ x. x.0 ≡ failed 36 → double x.1 < double w) w c i n (file_busy w n)
        (answer_busy w i n);
  channel_free_keeps = λ w c. omega arith;
}
