-- ===== src/Client/Calls.antt =====
-- The remote calls of src/corex_remote_cuda.c for memory, streams, events and transfers: how each one
-- writes its payload and what it accepts for a response. `none` is the result -1. `Wire` is what `rpc`
-- does with an opcode and a payload. That a payload cannot be allocated is not modelled, nor are null
-- pointers.
pub mod Direct
use x_remote_runtime.Prelude.{
  ℕ, ◌+◌, ◌-◌, ◌^◌, Option, none, some, List, [], ◌++◌, Bool, true, false, ◌==◌, ◌||◌, ltb,
  if◌then◌else◌, length, drop, ◌∷◌,
}
use x_remote_runtime.Protocol.Words.{read_u32, read_u64, write_u32, write_u64}
use x_remote_runtime.Client.Rpc.{RpcReply, transport_error, remote_error, replied}

-- The state of the peer goes in and comes out.
abbrev pub Wire : Type 0 → Type 0
Wire S = ℕ → List ℕ → S → S × RpcReply

-- The caller asks for no response: any payload is freed.
unfoldable pub as_done : RpcReply → Option (Unit {0})
as_done transport_error = none
as_done (remote_error status) = none
as_done (replied response) = some tt

unfoldable pub as_u64 : RpcReply → Option ℕ
as_u64 transport_error = none
as_u64 (remote_error status) = none
as_u64 (replied response) = if length response == 8 then some (read_u64 response) else none

unfoldable pub as_u32 : RpcReply → Option ℕ
as_u32 transport_error = none
as_u32 (remote_error status) = none
as_u32 (replied response) = if length response == 4 then some (read_u32 response) else none

-- A response of so many bytes.
unfoldable pub as_bytes : ℕ → RpcReply → Option (List ℕ)
as_bytes n transport_error = none
as_bytes n (remote_error status) = none
as_bytes n (replied response) = if length response == n then some response else none

-- An id, a pitch and a size.
unfoldable pub as_pitched : RpcReply → Option (ℕ × (ℕ × ℕ))
as_pitched transport_error = none
as_pitched (remote_error status) = none
as_pitched (replied response) =
    if length response == 24
    then some (read_u64 response, (read_u64 (drop 8 response), read_u64 (drop 16 response)))
    else none

abbrev pub words : List ℕ → List ℕ
words [] = []
words (v ∷ vs) = write_u64 [] v ++ words vs

module _ {S : Type 0} (wire : Wire S) where
  abbrev pub call : {A : Type 0} → (RpcReply → Option A) → ℕ → List ℕ → S → S × Option A
  call read opcode payload s = let r = wire opcode payload s in (r.0, read r.1)

  unfoldable pub remote_alloc : ℕ → S → S × Option ℕ
  remote_alloc size s = call as_u64 1 (words (size ∷ [])) s

  unfoldable pub remote_alloc_pitched : ℕ → ℕ → S → S × Option (ℕ × (ℕ × ℕ))
  remote_alloc_pitched width height s = call as_pitched 49 (words (width ∷ height ∷ [])) s

  unfoldable pub remote_free : ℕ → S → S × Option (Unit {0})
  remote_free allocation_id s = call as_done 6 (words (allocation_id ∷ [])) s

  -- The generated call: the response has no fields.
  unfoldable pub remote_sync : S → S × Option (List ℕ)
  remote_sync s = call (as_bytes 0) 4 [] s

  unfoldable pub remote_h2d : ℕ → ℕ → List ℕ → S → S × Option (Unit {0})
  remote_h2d allocation_id offset contents s =
      if ltb (2 ^ 32 - 1 - 24) (length contents)
      then (s, none)
      else call as_done 2 (words (allocation_id ∷ offset ∷ length contents ∷ []) ++ contents) s

  unfoldable pub remote_d2h : ℕ → ℕ → ℕ → S → S × Option (List ℕ)
  remote_d2h allocation_id offset size s =
      call (as_bytes size) 5 (words (allocation_id ∷ offset ∷ size ∷ [])) s

  unfoldable pub remote_d2d : ℕ → ℕ → ℕ → ℕ → ℕ → S → S × Option (Unit {0})
  remote_d2d dst_id dst_offset src_id src_offset size s =
      call as_done 28 (words (dst_id ∷ dst_offset ∷ src_id ∷ src_offset ∷ size ∷ [])) s

  unfoldable pub remote_d2d_async : ℕ → ℕ → ℕ → ℕ → ℕ → ℕ → S → S × Option (Unit {0})
  remote_d2d_async dst_id dst_offset src_id src_offset size stream_id s =
      call as_done 54 (words (dst_id ∷ dst_offset ∷ src_id ∷ src_offset ∷ size ∷ stream_id ∷ [])) s

  unfoldable pub remote_memset : ℕ → ℕ → ℕ → ℕ → S → S × Option (Unit {0})
  remote_memset allocation_id offset value size s =
      call as_done 29
        (words (allocation_id ∷ offset ∷ []) ++ write_u32 [] value ++ words (size ∷ [])) s

  unfoldable pub remote_memset_async : ℕ → ℕ → ℕ → ℕ → ℕ → S → S × Option (Unit {0})
  remote_memset_async allocation_id offset value size stream_id s =
      call as_done 30
        (words (allocation_id ∷ offset ∷ []) ++ write_u32 [] value ++ words (size ∷ stream_id ∷ []))
        s

  unfoldable pub remote_memset2d : ℕ → ℕ → ℕ → ℕ → ℕ → ℕ → S → S × Option (Unit {0})
  remote_memset2d allocation_id offset pitch value width height s =
      call as_done 52
        (words (allocation_id ∷ offset ∷ pitch ∷ width ∷ height ∷ []) ++ write_u32 [] value) s

  unfoldable pub remote_create_stream_flags : ℕ → S → S × Option ℕ
  remote_create_stream_flags flags s = call as_u64 12 (write_u32 [] flags) s

  -- The priority is the 32 bits of an int.
  unfoldable pub remote_create_stream_priority : ℕ → ℕ → S → S × Option ℕ
  remote_create_stream_priority flags priority s =
      call as_u64 32 (write_u32 [] flags ++ write_u32 [] priority) s

  unfoldable pub remote_stream_get_flags : ℕ → S → S × Option ℕ
  remote_stream_get_flags id s = call as_u32 31 (words (id ∷ [])) s

  -- The 32 bits of an int.
  unfoldable pub remote_stream_get_priority : ℕ → S → S × Option ℕ
  remote_stream_get_priority id s = call as_u32 33 (words (id ∷ [])) s

  unfoldable pub remote_destroy_stream : ℕ → S → S × Option (Unit {0})
  remote_destroy_stream stream_id s = call as_done 13 (words (stream_id ∷ [])) s

  unfoldable pub remote_stream_sync : ℕ → S → S × Option (Unit {0})
  remote_stream_sync stream_id s = call as_done 15 (words (stream_id ∷ [])) s

  unfoldable pub remote_create_event_flags : ℕ → S → S × Option ℕ
  remote_create_event_flags flags s = call as_u64 16 (write_u32 [] flags) s

  -- The bits of a float.
  unfoldable pub remote_event_elapsed : ℕ → ℕ → S → S × Option ℕ
  remote_event_elapsed first last s = call as_u32 34 (words (first ∷ last ∷ [])) s

  unfoldable pub remote_destroy_event : ℕ → S → S × Option (Unit {0})
  remote_destroy_event event_id s = call as_done 17 (words (event_id ∷ [])) s

  unfoldable pub remote_event_record : ℕ → ℕ → S → S × Option (Unit {0})
  remote_event_record event_id stream_id s = call as_done 18 (words (event_id ∷ stream_id ∷ [])) s

  unfoldable pub remote_event_sync : ℕ → S → S × Option (Unit {0})
  remote_event_sync event_id s = call as_done 20 (words (event_id ∷ [])) s

  unfoldable pub remote_stream_wait_event : ℕ → ℕ → S → S × Option (Unit {0})
  remote_stream_wait_event stream_id event_id s =
      call as_done 21 (words (stream_id ∷ event_id ∷ []) ++ write_u32 [] 0) s

  unfoldable pub remote_h2d_async_submit : ℕ → ℕ → ℕ → List ℕ → S → S × Option ℕ
  remote_h2d_async_submit allocation_id offset stream_id contents s =
      if length contents == 0 || ltb (2 ^ 32 - 1 - 32) (length contents)
      then (s, none)
      else call as_u64 22
          (words (allocation_id ∷ offset ∷ stream_id ∷ length contents ∷ []) ++ contents) s

  unfoldable pub remote_d2h_async_submit : ℕ → ℕ → ℕ → ℕ → S → S × Option ℕ
  remote_d2h_async_submit allocation_id offset stream_id size s =
      if size == 0 || ltb (2 ^ 32 - 1) size
      then (s, none)
      else call as_u64 23 (words (allocation_id ∷ offset ∷ stream_id ∷ size ∷ [])) s

  unfoldable pub remote_transfer_query : ℕ → S → S × Option ℕ
  remote_transfer_query transfer_id s = call as_u32 24 (words (transfer_id ∷ [])) s

  unfoldable pub remote_transfer_wait : ℕ → ℕ → S → S × Option (List ℕ)
  remote_transfer_wait transfer_id expected_bytes s =
      call (as_bytes expected_bytes) 25 (words (transfer_id ∷ [])) s
