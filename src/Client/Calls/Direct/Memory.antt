-- ===== src/Client/Calls/Direct/Memory.antt =====
-- `remote_alloc`, `remote_h2d` and `remote_memset` of src/corex_remote_cuda.c from end to end.
use x_remote_runtime.Prelude.{
  ℕ, ◌+◌, ◌-◌, ◌^◌, ◌≤◌, ◌<◌, ◌≡◌, refl, sym, ap, ◌∙◌, arith, Option, none, some, List, [], ◌++◌,
  false, ◌==◌, ltb, if◌then◌else◌, length, Bool-cases, inl, inr,
}
use x_remote_runtime.Protocol.Words.{
  IsU64, be32, be64, read_u64, write_u32, write_u64, write_u64-be64, read_u64-be64, write_u32-be32,
  read_u32-be32,
}
use x_remote_runtime.Server.Backend.{Driver, BackendCall, copy_h2d, mem_alloc, memset_d8, succeeds}
use x_remote_runtime.Server.Session.{
  World, Response, Allocation, blank_allocation, max_payload, find_allocation, ask, called, ok,
  add_u64,
}
use x_remote_runtime.Server.Memory.Copy.{handle_h2d, u32_max}
use x_remote_runtime.Server.Memory.Fill.{decode_memset_payload, handle_memset, reply_result}
use x_remote_runtime.Server.Memory.Alloc.{handle_alloc}
use x_remote_runtime.Server.Handlers.{handler}
use x_remote_runtime.Server.Dispatch.{BackendInfo, Serving}
use x_remote_runtime.Client.Rpc.{replied}
use x_remote_runtime.Client.Rpc.Server.{reply_of}
use x_remote_runtime.Server.Handlers.Sessions.{IsValid}
use x_remote_runtime.Server.Handlers.Allocations.Fresh.{find_allocation-handle_alloc}
use x_remote_runtime.Client.Calls.{as_done, as_u64, remote_alloc, remote_h2d, remote_memset}
use x_remote_runtime.Client.Calls.Direct.{direct, handled, direct-alloc, direct-h2d, direct-memset}

-- The state after one driver call, and 0 or -1 as the driver has answered it.
abbrev pub after_call : Driver → BackendCall → Serving → Serving × Option (Unit {0})
after_call d c s = (
  record s { world = called c s.world; capture_allow_alloc = false },
  (if succeeds (ask d c s.world).result then some tt else none),
)

h2d_payload :
    (id offset size : ℕ) (contents : List ℕ)
    → IsU64 id
    → IsU64 offset
    → IsU64 size
    → (write_u64 [] id ++ (write_u64 [] offset ++ (write_u64 [] size ++ []))) ++ contents
      ≡ be64 id ++ (be64 offset ++ (be64 size ++ contents))
h2d_payload id offset size contents h k l =
    rw (write_u64-be64 [] id h, write_u64-be64 [] offset k, write_u64-be64 [] size l) refl

h2d_fits :
    (id offset size : ℕ) (contents : List ℕ)
    → 24 + length contents ≤ max_payload
    → length (be64 id ++ (be64 offset ++ (be64 size ++ contents))) ≤ max_payload
h2d_fits id offset size contents small = omega (arith, small)

module _ (d : Driver) (w : World) (id offset : ℕ) (a : Allocation) (i : IsU64 id)
    (found : find_allocation w.session id ≡ some a) where
  h2d_runs :
      (contents : List ℕ)
      → length contents ≤ u32_max
      → offset + length contents ≤ a.size
      → IsU64 offset
      → handle_h2d d w (be64 id ++ (be64 offset ++ (be64 (length contents) ++ contents)))
        ≡ reply_result d (copy_h2d (add_u64 a.ptr offset) contents) w
  unfolding handle_h2d
  h2d_runs contents small room o =
      let size = length contents in
      let first = read_u64-be64 id (be64 offset ++ (be64 size ++ contents)) i in
      let second = read_u64-be64 offset (be64 size ++ contents) o in
      let third = read_u64-be64 size contents (omega arith) in ground (arith, first, second, third)

  memset_runs :
      (value size : ℕ)
      → value < 256
      → offset + size ≤ a.size
      → IsU64 offset
      → IsU64 size
      → handle_memset d w (be64 id ++ (be64 offset ++ (be32 value ++ be64 size)))
        ≡ reply_result d (memset_d8 (add_u64 a.ptr offset) value size) w
  unfolding handle_memset decode_memset_payload
  memset_runs value size byte room o n =
      let first = read_u64-be64 id (be64 offset ++ (be32 value ++ be64 size)) i in
      let second = read_u64-be64 offset (be32 value ++ be64 size) o in
      let third = read_u32-be32 value (be64 size) (omega arith) in
      let fourth = read_u64-be64 size [] n in ground (arith, first, second, third, fourth)

-- The reply of a handler that makes one driver call and reports its result.
handled-reply_result :
    (d : Driver) (c : BackendCall) (s : Serving)
    → ((handled s (reply_result d c s.world)).0, as_done (handled s (reply_result d c s.world)).1)
      ≡ after_call d c s
unfolding as_done
handled-reply_result d c s = elim (Bool-cases (succeeds (ask d c s.world).result)) [
  | inl good ↦ rw good refl
  | inr bad ↦ rw bad refl
]

module _ (d : Driver) (b : BackendInfo) (s : Serving) (id offset : ℕ) (a : Allocation) where
  -- Outside a capture, `remote_h2d` to an allocation with room for the bytes, which fit a payload, makes the server ask the
  -- driver for exactly that copy and for nothing else, changes no session, and returns 0 exactly if the
  -- driver has copied.
  pub remote_h2d-copies :
      (contents : List ℕ)
      → s.capture_graph ≡ 0
      → find_allocation s.world.session id ≡ some a
      → IsU64 id
      → IsU64 offset
      → offset + length contents ≤ a.size
      → 24 + length contents ≤ max_payload
      → remote_h2d (direct d b) id offset contents s
        ≡ after_call d (copy_h2d (add_u64 a.ptr offset) contents) s
  unfolding remote_h2d handler
  remote_h2d-copies contents plain found i o room small =
      let fits : ltb (2 ^ 32 - 1 - 24) (length contents) ≡ false = ground arith in
      let payload = h2d_payload id offset (length contents) contents i o (omega arith) in
      let c = copy_h2d (add_u64 a.ptr offset) contents in
      rw
        (
          fits,
          payload,
          direct-h2d d b _ s plain (h2d_fits id offset (length contents) contents small),
          h2d_runs d s.world id offset a i found contents (omega arith) room o,
        )
        (handled-reply_result d c s)

  -- Outside a capture, `remote_memset` of a range in an allocation makes the server ask the driver for
  -- exactly that fill and for nothing else, changes no session, and returns 0 exactly if the driver has
  -- filled.
  pub remote_memset-fills :
      (value size : ℕ)
      → s.capture_graph ≡ 0
      → find_allocation s.world.session id ≡ some a
      → IsU64 id
      → IsU64 offset
      → IsU64 size
      → value < 256
      → offset + size ≤ a.size
      → remote_memset (direct d b) id offset value size s
        ≡ after_call d (memset_d8 (add_u64 a.ptr offset) value size) s
  unfolding remote_memset handler
  remote_memset-fills value size plain found i o n byte room =
      let c = memset_d8 (add_u64 a.ptr offset) value size in
      let p = be64 id ++ (be64 offset ++ (be32 value ++ be64 size)) in
      let fits : length p ≤ max_payload = omega arith in
      rw
        (
          write_u64-be64 [] id i,
          write_u64-be64 [] offset o,
          write_u32-be32 [] value (omega arith),
          write_u64-be64 [] size n,
          direct-memset d b p s plain fits,
          memset_runs d s.world id offset a i found value size byte room o n,
        )
        (handled-reply_result d c s)

-- A response that is read as a number has the status `ST_OK`.
as_u64-reply_of :
    (r : Response) (id : ℕ)
    → as_u64 (reply_of r) ≡ some id
    → (r.status ≡ ok) × (as_u64 (replied r.payload) ≡ some id)
unfolding as_u64
as_u64-reply_of r id e = ground arith

as_u64-id : (id next : ℕ) → IsU64 next → as_u64 (replied (write_u64 [] next)) ≡ some id → id ≡ next
unfolding as_u64
as_u64-id id next h e =
    let same = read_u64-be64 next [] h in
    let written = write_u64-be64 [] next h in ground (arith, same, written)

word_fits : (size : ℕ) → length (write_u64 [] size ++ []) ≤ max_payload
unfolding write_u64 write_u32
word_fits size = omega arith

read_payload : (size : ℕ) → IsU64 size → read_u64 (write_u64 [] size ++ []) ≡ size
read_payload size h = rw (write_u64-be64 [] size h) (read_u64-be64 size [] h)

module _ (d : Driver) (b : BackendInfo) (s : Serving) where
  -- If `remote_alloc` returns 0 for a valid session outside a capture, the id is the session's next one,
  -- which was not in use. Afterwards it stands for the memory that the driver gave, with the size that
  -- was asked for, and every other id for what it did.
  pub remote_alloc-finds :
      (size id : ℕ)
      → IsValid s.world.session
      → IsU64 s.world.session.next_alloc_id
      → s.capture_graph ≡ 0
      → IsU64 size
      → (remote_alloc (direct d b) size s).1 ≡ some id
      → (id ≡ s.world.session.next_alloc_id)
        × (find_allocation s.world.session id ≡ none)
        × ((j : ℕ)
            → find_allocation (remote_alloc (direct d b) size s).0.world.session j ≡ (
                if id == j
                then some (record blank_allocation {
                  ptr = (ask d (mem_alloc size) s.world).value;
                  size = size;
                })
                else find_allocation s.world.session j))
  unfolding remote_alloc handler
  remote_alloc-finds size id valid small plain n e =
      let p : List ℕ = write_u64 [] size ++ [] in
      let step = direct-alloc d b p s plain (word_fits size) in
      let (good, read) =
        as_u64-reply_of (handle_alloc d s.world p).1 id (sym (ap (λ r. as_u64 r.1) step) ∙ e) in
      let (sent, fresh, finds) = find_allocation-handle_alloc d s.world p valid good in
      let same : id ≡ s.world.session.next_alloc_id =
        as_u64-id id s.world.session.next_alloc_id small
          (ap (λ q. as_u64 (replied q)) (sym sent) ∙ read) in
      (
        same,
        rw same fresh,
        λ j.
            ap (λ r. find_allocation r.0.world.session j) step
            ∙ finds j
            ∙ rw (same, read_payload size n) refl,
      )
