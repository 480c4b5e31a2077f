-- ===== src/Task/Thrift.antt =====
-- What libssh2 and the kernel may ask of a task's patience (src/task.c): they say "again" a bounded number
-- of times, and hand out a bounded number of bytes. A file from the server is not cut short, and a read of
-- a channel fails with -1 or EAGAIN: without these two the code goes on for ever.
use libpssh.Prelude.{
  ℕ, pos, negsuc, suc, ◌+◌, ◌<◌, ◌≤◌, ◌≡◌, Bool, true, List, length, some, int_limit,
}
use libpssh.Env.{Env, got, failed, FileInfo, null, opened}
use libpssh.Session.{is_eagain}
use libpssh.Session.Cost.{Patience}

-- What the calls of a task use up. The patience of a connection is the same: a count that no call
-- raises, and that every "again" lowers; a read of a channel lowers it by the bytes that it brings.
-- `is_file` are the channels of files from the server; a read of one brings some bytes when there is room. Files are no longer than `max_size`, and a read of one brings some bytes.
pub record Thrift {W : Type 0} (env : Env W) : Type 0 where
  pub conn : Patience env
  pub max_size : ℕ
  pub small : max_size < int_limit
  pub again_suc : (n : ℕ) × (env.eagain ≡ suc n)
  pub stat_keeps : (w : W) (f : List ℕ) → conn.patience (env.stat w f).1 ≤ conn.patience w
  pub stat_size :
      (w : W) (f : List ℕ) (st : FileInfo) → (env.stat w f).0 ≡ some st → st.st_size ≤ max_size
  pub open_read_keeps : (w : W) (f : List ℕ) → conn.patience (env.open_read w f).1 ≤ conn.patience w
  pub open_write_keeps :
      (w : W) (f : List ℕ) (m : ℕ) → conn.patience (env.open_write w f m).1 ≤ conn.patience w
  pub read_keeps : (w : W) (fd n : ℕ) → conn.patience (env.read w fd n).1 ≤ conn.patience w
  pub read_some :
      (w : W) (fd n : ℕ) (bs : List ℕ)
      → 0 < n
      → (env.read w fd n).0 ≡ got bs
      → (0 < length bs) × (length bs ≤ n)
  pub write_keeps :
      (w : W) (fd : ℕ) (bs : List ℕ) → conn.patience (env.write w fd bs).1 ≤ conn.patience w
  pub close_keeps : (w : W) (fd : ℕ) → conn.patience (env.close w fd).1 ≤ conn.patience w
  pub scp_send_keeps :
      (w : W) (s : ℕ) (f : List ℕ) (m n : ℕ)
      → conn.patience (env.scp_send w s f m n).1 ≤ conn.patience w
  pub scp_send_again :
      (w : W) (s : ℕ) (f : List ℕ) (m n : ℕ)
      → is_eagain env (env.last_errno (env.scp_send w s f m n).1 s) ≡ true
      → (env.scp_send w s f m n).0 ≡ null
      → conn.patience (env.scp_send w s f m n).1 < conn.patience w
  pub scp_recv_keeps :
      (w : W) (s : ℕ) (f : List ℕ) → conn.patience (env.scp_recv w s f).1 ≤ conn.patience w
  pub scp_recv_again :
      (w : W) (s : ℕ) (f : List ℕ)
      → is_eagain env (env.last_errno (env.scp_recv w s f).1 s) ≡ true
      → (env.scp_recv w s f).0.0 ≡ null
      → conn.patience (env.scp_recv w s f).1 < conn.patience w
  pub channel_open_keeps :
      (w : W) (s : ℕ) → conn.patience (env.channel_open_session w s).1 ≤ conn.patience w
  pub channel_open_again :
      (w : W) (s : ℕ)
      → is_eagain env (env.last_errno (env.channel_open_session w s).1 s) ≡ true
      → (env.channel_open_session w s).0 ≡ null
      → conn.patience (env.channel_open_session w s).1 < conn.patience w
  pub channel_exec_keeps :
      (w : W) (c : ℕ) (cmd : List ℕ) → conn.patience (env.channel_exec w c cmd).1 ≤ conn.patience w
  pub channel_exec_again :
      (w : W) (c s n : ℕ) (cmd : List ℕ)
      → is_eagain env (env.last_errno (env.channel_exec w c cmd).1 s) ≡ true
      → (env.channel_exec w c cmd).0 ≡ negsuc n
      → conn.patience (env.channel_exec w c cmd).1 < conn.patience w
  pub channel_write_keeps :
      (w : W) (c n : ℕ) (bs : List ℕ)
      → conn.patience (env.channel_write w c bs n).1 ≤ conn.patience w
  pub channel_write_within :
      (w : W) (c n k : ℕ) (bs : List ℕ) → (env.channel_write w c bs n).0 ≡ pos k → k ≤ n
  pub channel_write_nothing :
      (w : W) (c n : ℕ) (bs : List ℕ)
      → 0 < n
      → (env.channel_write w c bs n).0 ≡ pos 0
      → conn.patience (env.channel_write w c bs n).1 < conn.patience w
  pub channel_write_again :
      (w : W) (c s n k : ℕ) (bs : List ℕ)
      → is_eagain env (env.last_errno (env.channel_write w c bs n).1 s) ≡ true
      → (env.channel_write w c bs n).0 ≡ negsuc k
      → conn.patience (env.channel_write w c bs n).1 < conn.patience w
  pub channel_read_keeps :
      (w : W) (c i n : ℕ) → conn.patience (env.channel_read_ex w c i n).1 ≤ conn.patience w
  pub channel_read_within :
      (w : W) (c i n : ℕ) (bs : List ℕ) → (env.channel_read_ex w c i n).0 ≡ got bs → length bs ≤ n
  pub is_file : ℕ → Bool
  pub scp_recv_size : (w : W) (s : ℕ) (f : List ℕ) → (env.scp_recv w s f).0.1.st_size ≤ max_size
  pub scp_recv_file :
      (w : W) (s c : ℕ) (f : List ℕ) → (env.scp_recv w s f).0.0 ≡ opened c → is_file c ≡ true
  pub channel_read_file :
      (w : W) (c n : ℕ) (bs : List ℕ)
      → is_file c ≡ true
      → 0 < n
      → (env.channel_read_ex w c 0 n).0 ≡ got bs
      → 0 < length bs
  pub channel_read_bytes :
      (w : W) (c i n : ℕ) (bs : List ℕ)
      → (env.channel_read_ex w c i n).0 ≡ got bs
      → conn.patience (env.channel_read_ex w c i n).1 + length bs ≤ conn.patience w
  pub channel_read_again :
      (w : W) (c i n s : ℕ)
      → is_eagain env (env.last_errno (env.channel_read_ex w c i n).1 s) ≡ true
      → (env.channel_read_ex w c i n).0 ≡ failed 0
      → conn.patience (env.channel_read_ex w c i n).1 < conn.patience w
  pub channel_read_code :
      (w : W) (c i n k : ℕ) → (env.channel_read_ex w c i n).0 ≡ failed (suc k) → suc k ≡ env.eagain
  pub channel_read_busy :
      (w : W) (c i n : ℕ)
      → (env.channel_read_ex w c i n).0 ≡ failed env.eagain
      → conn.patience (env.channel_read_ex w c i n).1 < conn.patience w
  pub channel_free_keeps : (w : W) (c : ℕ) → conn.patience (env.channel_free w c) ≤ conn.patience w
