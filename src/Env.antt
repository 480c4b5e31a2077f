-- ===== src/Env.antt =====
-- What libpssh calls and does not define: libssh2, libevent, evdns, the C library and the kernel.
-- Each call is a function of a state `W` of that outside world, and gives its answer and the next
-- state. Nothing is assumed of an answer here; a theorem that relies on one names it.
use libpssh.Prelude.{ℕ, ℤ, Bool, List, Option}

-- The flags of an event that the program waits for: EV_READ or EV_WRITE.
pub data Interest : Type 0 where
  ev_read ev_write : Interest

-- The flags that libevent hands to a callback: EV_TIMEOUT, EV_READ, EV_WRITE are distinct bits.
pub record Fired : Type 0 where
  pub timed_out : Bool
  pub readable : Bool
  pub writable : Bool

-- connect(2) on a non-blocking socket: 0, -1 with EINPROGRESS, or -1 with another errno.
pub data ConnectAnswer : Type 0 where
  established in_progress refused : ConnectAnswer

-- A read into a buffer: the bytes that it stores, whose count it returns, or -(n + 1).
pub data ReadAnswer : Type 0 where
  got : List ℕ → ReadAnswer
  failed : ℕ → ReadAnswer

-- A call that gives a channel or NULL.
pub data ChannelAnswer : Type 0 where
  opened : ℕ → ChannelAnswer
  null : ChannelAnswer

-- `struct stat`, as far as it is read: st_mode and st_size.
pub record FileInfo : Type 0 where
  pub st_mode : ℕ
  pub st_size : ℕ

-- A session, a channel and a descriptor are handles. LIBSSH2_ERROR_EAGAIN is -(eagain + 1).
pub record Env (W : Type 0) : Type 0 where
  pub eagain : ℕ
  -- libevent and evdns
  pub event_add : W → ℕ → Interest → Option ℕ → ℤ × W
  pub event_del : W → ℕ → W
  pub resolv_conf_parse : W → Bool → ℤ × W
  pub resolve_ipv4 : W → List ℕ → Bool → W
  -- the C library and the kernel
  pub time : W → ℕ × W
  pub socket : W → ℤ × W
  pub connect : W → ℤ → ℤ → ℕ → ConnectAnswer × W
  pub getsockopt_error : W → ℤ → (ℤ × ℤ) × W
  pub maxpathlen : ℕ
  pub inet_aton : List ℕ → Bool
  pub inet_addr : List ℕ → ℤ
  pub stat : W → List ℕ → Option FileInfo × W
  pub open_read : W → List ℕ → Option ℕ × W
  pub open_write : W → List ℕ → ℕ → Option ℕ × W
  pub read : W → ℕ → ℕ → ReadAnswer × W
  pub write : W → ℕ → List ℕ → ℤ × W
  pub is_epipe : W → Bool
  pub close : W → ℕ → ℤ × W
  -- libssh2
  pub session_init : W → ℕ × W
  pub session_startup : W → ℕ → ℤ → ℤ × W
  pub userauth : W → ℕ → ℤ × W
  pub last_io_send : W → ℕ → Bool
  pub last_errno : W → ℕ → ℤ
  pub scp_send : W → ℕ → List ℕ → ℕ → ℕ → ChannelAnswer × W
  pub scp_recv : W → ℕ → List ℕ → (ChannelAnswer × FileInfo) × W
  pub channel_open_session : W → ℕ → ChannelAnswer × W
  pub channel_exec : W → ℕ → List ℕ → ℤ × W
  pub channel_write : W → ℕ → List ℕ → ℕ → ℤ × W
  pub channel_read_ex : W → ℕ → ℕ → ℕ → ReadAnswer × W
  pub channel_exit_status : W → ℕ → ℤ
  pub channel_free : W → ℕ → W
  pub session_disconnect : W → ℕ → W
  pub session_free : W → ℕ → W
