-- ===== src/Server/Modules.antt =====
-- Modules and kernels of server/runtime_server.c: the upload of an image, the kernels of a module, and
-- its unloading. The failure of malloc is not modelled.
pub mod Tables
pub mod Links
pub mod Invariant
pub mod Unloads
pub mod Finds
use x_remote_runtime.Prelude.{
  ℕ, ◌+◌, ◌-◌, none, some, List, [], ◌∷◌, Bool, true, false, not, ◌==◌, ◌&&◌, ◌||◌, ltb, leb,
  if◌then◌else◌, length, take, drop,
}
use x_remote_runtime.Bytes.{Outcome, fault, reject, accept}
use x_remote_runtime.Protocol.Words.{read_u32, read_u64, write_u64}
use x_remote_runtime.Metadata.Text.{codes, c_string, same_bytes, strcmp_equal}
use x_remote_runtime.Metadata.Module.{KernelMeta, ModuleMeta}
use x_remote_runtime.Metadata.Image.{corex_parse_metadata, corex_find_kernel_meta}
use x_remote_runtime.Server.Backend.{
  Driver, module_load, module_unload, module_function, context_sync, succeeds,
}
use x_remote_runtime.Server.Table.{Table, new_slot, remove, next_id}
use x_remote_runtime.Server.Session.{
  ServerSession, ModuleEntry, KernelEntry, World, Response, Handler, ProtocolStatus, ok,
  bad_request, not_found, cuda_error, no_resource, metadata_error, symbol_not_found, find_module,
  add_u64, ask, called, reply, reply_with, with_session,
}
use x_remote_runtime.Server.Launches.{Decoded, refused, decoded, ◌>>=◌, ◌>>◌, require, find_or}

-- `strchr(s, c)` for a character that is not NUL.
unfoldable pub strchr : List ℕ → ℕ → Bool
strchr [] c = false
strchr (b ∷ s) c = let rest = strchr s c in b == c || rest

abbrev pub starts_with_dot : List ℕ → Bool
starts_with_dot [] = false
starts_with_dot (b ∷ s) = b == 46

-- `strstr(s, "..")`
unfoldable pub has_dots : List ℕ → Bool
has_dots [] = false
has_dots (b ∷ s) = let rest = has_dots s in b == 46 && starts_with_dot s || rest

-- A plain file name with the suffix of an image.
unfoldable pub is_image_name : List ℕ → Bool
is_image_name name = not (
    strchr (c_string name) 47
    || has_dots (c_string name)
    || ltb (length name) 6
    || not (strcmp_equal (drop (length name - 6) name) (codes ".cubin")))

unfoldable pub is_elf : List ℕ → Bool
is_elf image = not (ltb (length image) 4) && same_bytes (take 4 image) (127 ∷ codes "ELF")

-- `fault` never comes of the parser.
abbrev pub parsed : Outcome ModuleMeta → Decoded ModuleMeta
parsed fault = refused metadata_error
parsed reject = refused metadata_error
parsed (accept m) = decoded m

pub record Upload : Type 0 where
  pub name : List ℕ
  pub image : List ℕ
  pub metadata : ModuleMeta

unfoldable pub decode_upload : List ℕ → Decoded Upload
decode_upload payload = do
  require (not (ltb (length payload) 12)) bad_request
  let name_len = read_u32 payload
  require (not (name_len == 0 || leb 128 name_len)) bad_request
  require (leb (4 + name_len + 8) (length payload)) bad_request
  let name = take name_len (drop 4 payload)
  require (is_image_name name) bad_request
  let image_size = read_u64 (drop (4 + name_len) payload)
  let image_pos = 4 + name_len + 8
  require (not (image_size == 0) && add_u64 image_pos image_size == length payload) bad_request
  let image = take image_size (drop image_pos payload)
  require (is_elf image) bad_request
  metadata ← parsed (corex_parse_metadata image)
  decoded (record { name = c_string name; image = image; metadata = metadata })

-- A module that the driver has loaded is entered, or unloaded again if the table is full.
unfoldable pub enter_module : ModuleEntry → World → World × Response
enter_module m w = elim (new_slot w.session.next_module_id m w.session.modules) [
  | none ↦ reply (called (module_unload m.handle) w) no_resource
  | some table ↦
      reply_with
        (with_session w
          (record w.session { modules = table; next_module_id = next_id w.session.next_module_id }))
        (write_u64 [] w.session.next_module_id)
]

abbrev pub loaded_module : Bool → Upload → ℕ → ModuleEntry
loaded_module library u handle = record {
  handle = handle;
  library = library;
  image = u.image;
  name = u.name;
  metadata = u.metadata;
  metadata_valid = true;
}

-- OP_UPLOAD_MODULE and OP_UPLOAD_LIBRARY, which is the flag.
unfoldable pub handle_upload_image : Bool → Driver → Handler
handle_upload_image library d w payload = elim (decode_upload payload) [
  | refused status ↦ reply w status
  | decoded u ↦
      let call = module_load u.image in
      if succeeds (ask d call w).result
      then enter_module (loaded_module library u (ask d call w).value) (called call w)
      else reply (called call w) cuda_error
]

pub record KernelRequest : Type 0 where
  pub module_id : ℕ
  pub name : List ℕ
  pub entry : ModuleEntry
  pub metadata : KernelMeta

abbrev pub no_such_kernel : ModuleEntry → ProtocolStatus
no_such_kernel m = if m.library then symbol_not_found else metadata_error

unfoldable pub decode_get_kernel : ServerSession → List ℕ → Decoded KernelRequest
decode_get_kernel s payload = do
  require (not (ltb (length payload) 12)) bad_request
  let module_id = read_u64 payload
  let name_len = read_u32 (drop 8 payload)
  require (not (name_len == 0 || leb 128 name_len) && 12 + name_len == length payload) bad_request
  let name = take name_len (drop 12 payload)
  m ← find_or not_found (find_module s module_id)
  require m.metadata_valid (no_such_kernel m)
  metadata ← find_or (no_such_kernel m) (corex_find_kernel_meta m.metadata name)
  decoded (record { module_id = module_id; name = name; entry = m; metadata = metadata })

unfoldable pub enter_kernel : KernelEntry → World → World × Response
enter_kernel k w = elim (new_slot w.session.next_kernel_id k w.session.kernels) [
  | none ↦ reply w no_resource
  | some table ↦
      reply_with
        (with_session w
          (record w.session { kernels = table; next_kernel_id = next_id w.session.next_kernel_id }))
        (write_u64 [] w.session.next_kernel_id)
]

abbrev pub found_kernel : KernelRequest → ℕ → KernelEntry
found_kernel r function = record {
  module_id = r.module_id;
  function = function;
  name = c_string r.name;
  metadata = r.metadata;
  metadata_valid = true;
}

unfoldable pub handle_get_kernel : Driver → Handler
handle_get_kernel d w payload = elim (decode_get_kernel w.session payload) [
  | refused status ↦ reply w status
  | decoded r ↦
      let call = module_function r.entry.handle (c_string r.name) in
      if succeeds (ask d call w).result
      then enter_kernel (found_kernel r (ask d call w).value) (called call w)
      else reply (called call w) not_found
]

-- `memset` on every used entry that the test is true of.
unfoldable pub clear_where : {A : Type 0} → (A → Bool) → Table A → Table A
clear_where p [] = []
clear_where p (none ∷ t) = none ∷ clear_where p t
clear_where p (some (i, a) ∷ t) =
    let rest = clear_where p t in if p a then none ∷ rest else some (i, a) ∷ rest

abbrev pub invalidate_module_kernels : ℕ → ServerSession → ServerSession
invalidate_module_kernels module_id s = record s {
  kernels = clear_where (λ k. k.module_id == module_id) s.kernels;
}

-- The allocations of its globals, and the module itself.
abbrev pub forget_module : ℕ → ServerSession → ServerSession
forget_module module_id s = record s {
  allocations = clear_where (λ a. a.parent_module_id == module_id) s.allocations;
  modules = remove module_id s.modules;
}

-- Once nothing runs any more.
unfoldable pub unload_module : Driver → ℕ → ModuleEntry → World → World × Response
unload_module d module_id m w =
    let idle = with_session w (invalidate_module_kernels module_id w.session) in
    let call = module_unload m.handle in
    if succeeds (ask d call idle).result
    then reply (with_session (called call idle) (forget_module module_id idle.session)) ok
    else reply (called call idle) cuda_error

unfoldable pub handle_unload_module : Driver → Handler
handle_unload_module d w payload =
    if not (length payload == 8)
    then reply w bad_request
    else elim (find_module w.session (read_u64 payload)) [
      | none ↦ reply w not_found
      | some m ↦
          if succeeds (ask d context_sync w).result
          then unload_module d (read_u64 payload) m (called context_sync w)
          else reply (called context_sync w) cuda_error
    ]
