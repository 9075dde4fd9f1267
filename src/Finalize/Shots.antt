-- ===== src/Finalize/Shots.antt =====
-- What the loop over the further threads makes of each of them.
use observable_bsd.Prelude.{
  ◌<◌, ltb, is_empty, not, if-same, true, false, ℕ, ◌≤◌, ◌≡◌, refl, inl, inr, Option, none, some,
  List, [], ◌∷◌, Bytes, take, ℤ, arith, Bool-cases,
}
use observable_bsd.Types.{maxpathlen}
use observable_bsd.Meta.{MetaWriter}
use observable_bsd.Trace.{TraceState}
use observable_bsd.Snapshot.{choose_snapshot_len}
use observable_bsd.Hwt.Process.{Os, opened_fd, close, bufptr_get, ioctl, mapped}
use observable_bsd.Hwt.{HwtThreadCtx, HwtCtx, Kernel}
use observable_bsd.Hwt.Broken.{Writes}
use observable_bsd.Hwt.Buffer.{map_thread}
use observable_bsd.Snapshot.{extent}
use observable_bsd.Poll.{derive_meta_path}
use observable_bsd.Finalize.{Answers, ThreadFile, thread_path, thread_meta, thread_len, add_file}

module _ (k : Kernel) (a : Answers) (pt_output : Bytes) (ctx : HwtCtx) (ts : TraceState) where
  -- The end of the data that the position of the kernel gives: 0 where it gives none, or one beyond
  -- the buffer.
  pub data IsEnd : Option (ℤ × ℕ) → ℕ → Type 0 where
    unknown : IsEnd none 0
    beyond :
        (page : ℤ) (offset : ℕ) → ctx.bufsize < extent page offset → IsEnd (some (page, offset)) 0
    within :
        (page : ℤ) (offset : ℕ)
        → extent page offset ≤ ctx.bufsize
        → IsEnd (some (page, offset)) (extent page offset)

  -- What a round makes of the thread `tid`, whose position is `at` and whose buffer is at `p`, from a
  -- process to another one: no files, since the buffer is not mapped, the length that
  -- choose_snapshot_len() settles on is 0, the file cannot be created or one of the calls of write()
  -- fails; or that many bytes of the buffer at the path of the thread, with its sidecar.
  pub data IsShot (tid : ℤ) (at : Option (ℤ × ℕ)) (os : Os)
      : Option ℕ → Option ThreadFile → Os → Type 0 where
    unmapped : IsShot tid at os none none os
    empty :
        (q end : ℕ)
        → IsEnd at end
        → choose_snapshot_len
            (a.probe tid ts.sections)
            (some (k.memory q))
            end
            (not (is_empty ts.sections))
          ≡ 0
        → IsShot tid at os (some q) none os
    refused :
        (q end n : ℕ)
        → IsEnd at end
        → choose_snapshot_len
            (a.probe tid ts.sections)
            (some (k.memory q))
            end
            (not (is_empty ts.sections))
          ≡ n
        → 0 < n
        → k.create os ≡ none
        → IsShot tid at os (some q) none os
    broken :
        (q end n fd : ℕ)
        → IsEnd at end
        → choose_snapshot_len
            (a.probe tid ts.sections)
            (some (k.memory q))
            end
            (not (is_empty ts.sections))
          ≡ n
        → 0 < n
        → k.create os ≡ some fd
        → Writes (a.write tid) 0 n false
        → IsShot tid at os (some q) none (close fd (opened_fd os (some fd)))
    shot :
        (q end n fd : ℕ) (os' : Os) (meta : MetaWriter)
        → IsEnd at end
        → choose_snapshot_len
            (a.probe tid ts.sections)
            (some (k.memory q))
            end
            (not (is_empty ts.sections))
          ≡ n
        → 0 < n
        → k.create os ≡ some fd
        → Writes (a.write tid) 0 n true
        → thread_meta k a pt_output ctx ts tid (close fd (opened_fd os (some fd))) ≡ (os', meta)
        → IsShot tid at os
            (some q)
            (some (record {
              thread_id = tid;
              path = thread_path pt_output tid;
              bytes = take n (k.memory q);
              meta_path = derive_meta_path (thread_path pt_output tid) maxpathlen;
              meta = meta;
            }))
            os'

  -- The buffer that a thread has already, or gets from mmap().
  pub data IsBuffer (t : HwtThreadCtx) (os : Os) : Option ℕ → Os → Type 0 where
    kept : (p : ℕ) → t.trace_buf ≡ some p → IsBuffer t os (some p) os
    asked :
        (p : Option ℕ)
        → t.trace_buf ≡ none
        → k.mmap os ctx.bufsize t.fd ≡ p
        → IsBuffer t os p (mapped os p)

  -- The rounds of the loop, in order: the position of each thread is what the kernel answers on its
  -- device when its turn comes, and its buffer is the one that it has or gets then.
  pub data Shots : List HwtThreadCtx → Os → List HwtThreadCtx → List ThreadFile → Os → Type 0 where
    done : (os : Os) → Shots [] os [] [] os
    round :
        (t : HwtThreadCtx) (us vs : List HwtThreadCtx) (fs : List ThreadFile) (os os1 os2 os3 : Os)
        (p : Option ℕ) (f : Option ThreadFile)
        → IsBuffer t (ioctl t.fd bufptr_get os) p os1
        → IsShot t.thread_id (k.bufptr os t.fd) os1 p f os2
        → Shots us os2 vs fs os3
        → Shots
            (t ∷ us)
            os
            (record t { trace_buf = p } ∷ vs)
            (add_file k a pt_output ctx ts f fs)
            os3

  field-IsBuffer :
      (t : HwtThreadCtx) (os : Os) (o : Option ℕ)
      → t.trace_buf ≡ o
      → (let r = map_thread k ctx.bufsize t.fd o os in IsBuffer t os r.0 r.1)
  unfolding map_thread
  field-IsBuffer t os none e = asked _ e refl
  field-IsBuffer t os (some p) e = kept p e

  pub map_thread-IsBuffer :
      (t : HwtThreadCtx) (os : Os)
      → (let r = map_thread k ctx.bufsize t.fd t.trace_buf os in IsBuffer t os r.0 r.1)
  map_thread-IsBuffer t os = field-IsBuffer t os t.trace_buf refl

  pub thread_len-IsEnd :
      (tid : ℤ) (buf : Bytes) (at : Option (ℤ × ℕ))
      → (end : ℕ) × IsEnd at end
        × (choose_snapshot_len (a.probe tid ts.sections) (some buf) end (not (is_empty ts.sections))
            ≡ thread_len k a pt_output ctx ts tid buf at)
  unfolding thread_len
  thread_len-IsEnd tid buf none = (0, unknown, rw (if-same {A = ℕ} (ltb ctx.bufsize 0) 0) refl)
  thread_len-IsEnd tid buf (some (page, offset)) =
      elim (Bool-cases (ltb ctx.bufsize (extent page offset))) [
        | inl e ↦ (0, beyond page offset (ground arith), rw (thread_len, e) refl)
        | inr e ↦ (extent page offset, within page offset (ground arith), rw (thread_len, e) refl)
      ]
