-- ===== src/Server/Modules/Invariant.antt =====
-- The handlers of modules and kernels of server/runtime_server.c, and the links between their tables.
use x_remote_runtime.Prelude.{
  ℕ, ◌+◌, ◌^◌, ◌<◌, ◌≡◌, refl, arith, List, Bool, ◌==◌, length, Bool-cases, Option-cases, inl, inr,
}
use x_remote_runtime.Bytes.{Outcome, accept, fault, reject}
use x_remote_runtime.Protocol.Words.{read_u64}
use x_remote_runtime.Metadata.Text.{c_string}
use x_remote_runtime.Metadata.Module.Bounds.{IsModule}
use x_remote_runtime.Metadata.Image.{corex_parse_metadata, corex_find_kernel_meta}
use x_remote_runtime.Metadata.Module.{ModuleMeta}
use x_remote_runtime.Metadata.Image.Safety.{corex_parse_metadata-IsModule}
use x_remote_runtime.Server.Backend.{
  Driver, module_load, module_unload, module_function, context_sync, succeeds,
}
use x_remote_runtime.Server.Table.{new_slot}
use x_remote_runtime.Server.Session.{
  ServerSession, ModuleEntry, KernelEntry, World, find_module, ask, called, with_session,
}
use x_remote_runtime.Server.Launches.{decoded}
use x_remote_runtime.Server.Modules.{
  Upload, KernelRequest, loaded_module, found_kernel, decode_upload, decode_get_kernel,
  enter_module, enter_kernel, handle_upload_image, handle_get_kernel, invalidate_module_kernels,
  unload_module, handle_unload_module,
}
use x_remote_runtime.Server.Modules.Links.{
  HasModule, IsLinked, with_module-IsLinked, with_kernel-IsLinked,
  invalidate_module_kernels-IsLinked, forget_module-IsLinked,
}
use x_remote_runtime.Server.Launches.{require, find_or}
use x_remote_runtime.Server.Launches.Safety.{Decoded-cases, >>=-eq-decoded, find_or-eq-decoded}
use x_remote_runtime.Prelude.{leb, ltb, not, take, drop, ◌||◌, ◌&&◌}
use x_remote_runtime.Protocol.Words.{read_u32}
use x_remote_runtime.Server.Modules.{is_image_name, is_elf, parsed, no_such_kernel}
use x_remote_runtime.Server.Session.{add_u64, not_found}

enter_module-IsLinked :
    (m : ModuleEntry) (w : World)
    → IsLinked w.session
    → w.session.next_module_id + 1 < 2 ^ 64
    → IsModule m.metadata
    → IsLinked (enter_module m w).0.session
unfolding enter_module
enter_module-IsLinked m w v room described =
    elim (Option-cases (new_slot w.session.next_module_id m w.session.modules)) [
      | inl full ↦ rw (full, enter_module) v
      | inr (t, entered) ↦
          rw (entered, enter_module) (with_module-IsLinked w.session v m t entered room described)
    ]

enter_kernel-IsLinked :
    (k : KernelEntry) (w : World)
    → IsLinked w.session
    → w.session.next_kernel_id + 1 < 2 ^ 64
    → HasModule w.session k
    → IsLinked (enter_kernel k w).0.session
unfolding enter_kernel
enter_kernel-IsLinked k w v room has =
    elim (Option-cases (new_slot w.session.next_kernel_id k w.session.kernels)) [
      | inl full ↦ rw (full, enter_kernel) v
      | inr (t, entered) ↦
          rw (entered, enter_kernel) (with_kernel-IsLinked w.session v k t entered room has)
    ]

unload_module-IsLinked :
    (d : Driver) (id : ℕ) (m : ModuleEntry) (w : World)
    → IsLinked w.session
    → IsLinked (unload_module d id m w).0.session
unfolding unload_module
unload_module-IsLinked d id m w v =
    let idle = with_session w (invalidate_module_kernels id w.session) in
    elim (Bool-cases (succeeds (ask d (module_unload m.handle) idle).result)) [
      | inl good ↦ rw (good, unload_module) (forget_module-IsLinked w.session v id)
      | inr bad ↦ rw (bad, unload_module) (invalidate_module_kernels-IsLinked w.session v id)
    ]

accepted_image : (o : Outcome ModuleMeta) (m : ModuleMeta) → parsed o ≡ decoded m → o ≡ accept m
accepted_image fault m h = ground (arith, h)
accepted_image reject m h = ground (arith, h)
accepted_image (accept n) m h = ground (arith, h)

-- The metadata of an upload comes from its image.
decode_upload-IsModule :
    (payload : List ℕ) (u : Upload) → decode_upload payload ≡ decoded u → IsModule u.metadata
unfolding decode_upload
decode_upload-IsModule payload u h =
    let name_len = read_u32 payload in
    let name = take name_len (drop 4 payload) in
    let image_size = read_u64 (drop (4 + name_len) payload) in
    let image_pos = 4 + name_len + 8 in
    let image = take image_size (drop image_pos payload) in
    let (_, _, h1) = >>=-eq-decoded (require (not (ltb (length payload) 12)) _) _ u h in
    let (_, _, h2) = >>=-eq-decoded (require (not (name_len == 0 || leb 128 name_len)) _) _ u h1 in
    let (_, _, h3) = >>=-eq-decoded (require (leb (4 + name_len + 8) (length payload)) _) _ u h2 in
    let (_, _, h4) = >>=-eq-decoded (require (is_image_name name) _) _ u h3 in
    let (_, _, h5) =
      >>=-eq-decoded
        (require (not (image_size == 0) && add_u64 image_pos image_size == length payload) _) _ u
        h4 in
    let (_, _, h6) = >>=-eq-decoded (require (is_elf image) _) _ u h5 in
    let (m, read, h7) = >>=-eq-decoded (parsed (corex_parse_metadata image)) _ u h6 in
    let same : u.metadata ≡ m = cc in
    rw same (corex_parse_metadata-IsModule image m (accepted_image _ m read)).0

-- A kernel that is looked up has its module, which is the one of the request.
pub decode_get_kernel-HasModule :
    (s : ServerSession) (payload : List ℕ) (r : KernelRequest) (function : ℕ)
    → decode_get_kernel s payload ≡ decoded r
    → (has : HasModule s (found_kernel r function)) × (has.entry ≡ r.entry)
      × (r.module_id ≡ read_u64 payload)
unfolding decode_get_kernel
decode_get_kernel-HasModule s payload r function h =
    let id = read_u64 payload in
    let name_len = read_u32 (drop 8 payload) in
    let name = take name_len (drop 12 payload) in
    let (_, _, h1) = >>=-eq-decoded (require (not (ltb (length payload) 12)) _) _ r h in
    let (_, _, h2) =
      >>=-eq-decoded
        (require (not (name_len == 0 || leb 128 name_len) && 12 + name_len == length payload) _) _ r
        h1 in
    let (m, known, h3) = >>=-eq-decoded (find_or not_found (find_module s id)) _ r h2 in
    let (_, _, h4) = >>=-eq-decoded (require m.metadata_valid (no_such_kernel m)) _ r h3 in
    let (meta, found, h5) =
      >>=-eq-decoded (find_or (no_such_kernel m) (corex_find_kernel_meta m.metadata name)) _ r h4 in
    let same_id : r.module_id ≡ id = cc in
    let same_name : r.name ≡ name = cc in
    let same_metadata : r.metadata ≡ meta = cc in
    let has : HasModule s (found_kernel r function) = record {
      entry = m;
      name = r.name;
      here = rw same_id (find_or-eq-decoded _ (find_module s id) m known);
      described = rw (same_name, same_metadata) (find_or-eq-decoded _ _ meta found);
      named = refl;
    } in
    let same_entry : m ≡ r.entry = cc in (has, same_entry, same_id)

-- The outcome of each of the three handlers.
module _ (d : Driver) (w : World) (payload : List ℕ) (v : IsLinked w.session) where
  upload-IsLinked :
      (library : Bool)
      → w.session.next_module_id + 1 < 2 ^ 64
      → IsLinked (handle_upload_image library d w payload).0.session
  unfolding handle_upload_image
  upload-IsLinked library room = elim (Decoded-cases (decode_upload payload)) [
    | inl (status, e) ↦ rw (e, handle_upload_image) v
    | inr (u, e) ↦
        let described = decode_upload-IsModule payload u e in
        let call = module_load u.image in
        let m = loaded_module library u (ask d call w).value in
        elim (Bool-cases (succeeds (ask d call w).result)) [
          | inl good ↦
              rw (e, handle_upload_image, good)
                (enter_module-IsLinked m (called call w) v room described)
          | inr bad ↦ rw (e, handle_upload_image, bad) v
        ]
  ]

  get_kernel-IsLinked :
      w.session.next_kernel_id + 1 < 2 ^ 64 → IsLinked (handle_get_kernel d w payload).0.session
  unfolding handle_get_kernel
  get_kernel-IsLinked room = elim (Decoded-cases (decode_get_kernel w.session payload)) [
    | inl (status, e) ↦ rw (e, handle_get_kernel) v
    | inr (r, e) ↦
        let call = module_function r.entry.handle (c_string r.name) in
        let function = (ask d call w).value in
        let has = (decode_get_kernel-HasModule w.session payload r function e).0 in
        elim (Bool-cases (succeeds (ask d call w).result)) [
          | inl good ↦
              rw (e, handle_get_kernel, good)
                (enter_kernel-IsLinked (found_kernel r function) (called call w) v room has)
          | inr bad ↦ rw (e, handle_get_kernel, bad) v
        ]
  ]

  unload_module_handler-IsLinked : IsLinked (handle_unload_module d w payload).0.session
  unfolding handle_unload_module
  unload_module_handler-IsLinked = elim (Bool-cases (length payload == 8)) [
    | inr short ↦ rw (short, handle_unload_module) v
    | inl whole ↦ elim (Option-cases (find_module w.session (read_u64 payload))) [
      | inl unknown ↦ rw (whole, handle_unload_module, unknown) v
      | inr (m, known) ↦ elim (Bool-cases (succeeds (ask d context_sync w).result)) [
        | inl idle ↦
            rw (whole, handle_unload_module, known, idle)
              (unload_module-IsLinked d (read_u64 payload) m (called context_sync w) v)
        | inr busy ↦ rw (whole, handle_unload_module, known, busy) v
      ]
    ]
  ]

  -- In a session where every kernel has its module, the upload of a module or a library, the lookup of a
  -- kernel and the unloading of a module, whatever they reply and whatever the driver answers, lead to
  -- such a session: the tables of modules and of kernels are well formed, the metadata of every module is
  -- in its bounds, and every kernel has its module, whose metadata has the kernel under its name; as long
  -- as the two id counters do not wrap around.
  pub module_handlers-IsLinked :
      (library : Bool)
      → w.session.next_module_id + 1 < 2 ^ 64
      → w.session.next_kernel_id + 1 < 2 ^ 64
      → IsLinked (handle_upload_image library d w payload).0.session
        × IsLinked (handle_get_kernel d w payload).0.session
        × IsLinked (handle_unload_module d w payload).0.session
  module_handlers-IsLinked library modules kernels =
      (upload-IsLinked library modules, get_kernel-IsLinked kernels, unload_module_handler-IsLinked)
