-- ===== src/Examples/Writing.antt =====
-- The theorems on xwrite (src/xsys.c) and on receiving a file (src/task.c) at work in a small world.
use libpssh.Prelude.{
  ℕ, ℤ, some, str_eq, str_eq_refl, if◌then◌else◌, negsuc, true, ◌<◌, ◌≤◌, ◌⊎◌, inl, inr, List, ◌∷◌,
  ◌-◌, ◌≡◌, refl, sym, pos, min, [], ◌++◌, none, length, length-take, take, take-append-drop, ok,
  arith,
}
use libpssh.Env.{Env}
use libpssh.Task.{channel_ready, data_transfer, from_serv, CopyTask, copy, TaskLocal}
use libpssh.Task.Copy.Send.{Runs}
use libpssh.Task.Copy.Receive.{IsSource, IsDisk, recv_total}
use libpssh.Xsys.{xwrite, xwrite_from}
use libpssh.Xsys.Ends.{IsPort, IsEnd, xwrite_ends}
use libpssh.Examples.Sim.{Sim, sim, busy, take_nothing, upload, on_server}

-- A pipe that takes three bytes, and whose reader is then gone.
abbrev pipe_write : Sim → List ℕ → List ℕ → ℤ × Sim
pipe_write w bs [] =
    (pos (min (length bs) 3), record w { sunk = w.sunk ++ take (min (length bs) 3) bs })
pipe_write w bs (x ∷ xs) = (negsuc 0, w)

abbrev piping : Env Sim
piping = record sim { write = λ w fd bs. pipe_write w bs w.sunk; is_epipe = λ w. true }

pipe_answers :
    (w : Sim) (bs sunk : List ℕ)
    → 0 < length bs
    → ((k : ℕ) × ((pipe_write w bs sunk).0 ≡ pos k)
        × (0 < k)
        × (k ≤ length bs)
        × ((pipe_write w bs sunk).1.sunk ≡ w.sunk ++ take k bs))
      ⊎ ((e : ℕ) × ((pipe_write w bs sunk).0 ≡ negsuc e) × ((pipe_write w bs sunk).1.sunk ≡ w.sunk))
pipe_answers w bs [] p = inl (min (length bs) 3, refl, omega arith, omega arith, refl)
pipe_answers w bs (x ∷ xs) p = inr (0, refl, refl)

abbrev pipe : IsPort piping 4
pipe = record { written = λ w. w.sunk; answers = λ w bs p. pipe_answers w bs w.sunk p }

xwrite_ends_example :
    (n : ℕ) × (w' : Sim) × IsEnd piping 4 (xwrite piping 5 busy 4 busy.disk) 0 busy.disk n w'
    × (w'.sunk ≡ [] ++ take n busy.disk)
xwrite_ends_example = xwrite_ends piping 4 pipe 5 busy busy.disk (omega arith)

xwrite_pipe : xwrite piping 5 busy 4 busy.disk ≡ ok (pos 3, record busy { sunk = take 3 busy.disk })
unfolding xwrite xwrite_from
xwrite_pipe = refl

-- A world whose disk keeps the last file and its name, and a download of two bytes.
abbrev saving : Env Sim
saving = record sim {
  open_write = λ w n m. (some 4, record w { disk = n });
  write = λ w fd bs. (pos (length bs), record w { sunk = bs });
}

abbrev source : IsSource saving 5
source = record {
  pending = λ w. w.out;
  read_some = λ w n. (
    take n w.out,
    refl,
    sym (take-append-drop n w.out),
    omega (arith, length-take n w.out),
    λ p. take_nothing n w.out p,
  );
}

abbrev disk : IsDisk saving
disk = record {
  file = λ w n. if str_eq w.disk n then w.sunk else [];
  opened = λ w fd. w.disk;
  opens = λ w name mode. (4, refl, refl);
  writes = λ w fd bs. (refl, rw (str_eq_refl w.disk) refl);
  closes = λ w fd. (refl, λ n. refl);
}

abbrev download : CopyTask
download = record upload { dir = from_serv; buf = none; st = record { st_mode = 420; st_size = 2 } }

recv_total_example :
    (t' : TaskLocal Sim) × Runs saving 0 (on_server channel_ready (copy download)) t'
    × ((t'.task.stat ≡ data_transfer)
        × (disk.file t'.world download.l_fn ≡ [] ++ take (2 - 0) busy.out))
recv_total_example =
    recv_total saving 0 5 source disk 3 (on_server channel_ready (copy download)) download
      (record {
        ready = refl;
        union = refl;
        open_channel = refl;
        down = refl;
        counted = refl;
        part = omega arith;
        small = omega arith;
        enough = omega arith;
      })
      (omega arith)
