-- ===== src/Server/Launches/Safety.antt =====
-- The launches that server/runtime_server.c asks of the driver fit the metadata of their kernel.
use x_remote_runtime.Prelude.{
  ℕ, ◌<◌, ◌≡◌, ◌≢◌, ◌⊎◌, ◌∙◌, ap, if◌then◌else◌, inl, inr, refl, arith, Option, none, some, List,
  [], ◌∷◌, Bool, true, false, not, ◌==◌, ◌||◌, ltb, leb, length, take, drop, length-take,
  Bool-cases, ltb→lt,
}
use x_remote_runtime.Protocol.Words.{read_u32, read_u64}
use x_remote_runtime.Metadata.Module.{ArgKind, ArgMeta, unknown, global_buffer, by_value}
use x_remote_runtime.Server.Backend.{Driver, KernelParam, ptr, i32, u64, f32, raw, succeeds}
use x_remote_runtime.Server.Session.{
  ProtocolStatus, ServerSession, World, Allocation, find_kernel, find_allocation, add_u64,
  resolve_stream_id, called, ask, ok, cuda_error,
}
use x_remote_runtime.Server.Launches.Refusals.{decode_kernel_launch-Refuses}
use x_remote_runtime.Server.Launches.{
  Decoded, refused, decoded, ◌>>=◌, require, find_or, arg_remote_ptr, arg_i32, arg_u64, arg_f32,
  arg_raw_value, wire_arg_abi_size, wire_arg_expected_meta_kind, same_known_kind, has_wire_size,
  fits_metadata, read_remote_ptr, read_param, decode_arg, decode_args, DecodedKernelLaunch,
  decode_kernel_launch, has_zero, read_dim3, launch_call, handle_launch_generic,
}

-- A parameter is of the kind and the size that the metadata gives; a pointer is into an allocation that
-- the session knows.
abbrev pub FitsMeta : ServerSession → ArgMeta → KernelParam → Type 0
FitsMeta s meta (ptr address) =
    (meta.kind ≡ global_buffer)
    × (meta.size ≡ 8)
    × ((id offset : ℕ) × (a : Allocation) × (find_allocation s id ≡ some a)
        × (offset < a.size)
        × (address ≡ add_u64 a.ptr offset))
FitsMeta s meta (i32 v) = (meta.kind ≡ by_value) × (meta.size ≡ 4)
FitsMeta s meta (u64 v) = (meta.kind ≡ by_value) × (meta.size ≡ 8)
FitsMeta s meta (f32 v) = (meta.kind ≡ by_value) × (meta.size ≡ 4)
FitsMeta s meta (raw bytes) = (meta.kind ≡ by_value) × (meta.size ≡ length bytes)

abbrev pub AllFit : ServerSession → List ArgMeta → List KernelParam → Type 0
AllFit s [] [] = Unit {0}
AllFit s [] (p ∷ params) = ⊥
AllFit s (meta ∷ metas) [] = ⊥
AllFit s (meta ∷ metas) (p ∷ params) = FitsMeta s meta p × AllFit s metas params

pub Decoded-cases {ℓ} :
    {A : Type ℓ} (r : Decoded A)
    → ((status : ProtocolStatus) × (r ≡ refused status)) ⊎ ((a : A) × (r ≡ decoded a))
Decoded-cases (refused status) = inl (status, refl)
Decoded-cases (decoded a) = inr (a, refl)

pub >>=-eq-decoded {ℓ κ} :
    {A : Type ℓ} {B : Type κ} (m : Decoded A) (f : A → Decoded B) (b : B)
    → (m >>= f) ≡ decoded b
    → (a : A) × (m ≡ decoded a) × (f a ≡ decoded b)
>>=-eq-decoded (refused e) f b h = cc
>>=-eq-decoded (decoded a) f b h = (a, refl, h)

pub find_or-eq-decoded {ℓ} :
    {A : Type ℓ} (e : ProtocolStatus) (o : Option A) (a : A) → find_or e o ≡ decoded a → o ≡ some a
find_or-eq-decoded e none a h = cc
find_or-eq-decoded e (some b) a h = cc

require-eq-decoded :
    (b : Bool) (e : ProtocolStatus) (u : Unit {0}) → require b e ≡ decoded u → b ≡ true
require-eq-decoded true e u h = refl
require-eq-decoded false e u h = cc

module _ (s : ServerSession) where
  read_remote_ptr-inside :
      (body : List ℕ) (p : KernelParam)
      → read_remote_ptr false s body ≡ decoded p
      → (id offset : ℕ) × (a : Allocation) × (find_allocation s id ≡ some a)
        × (offset < a.size)
        × (p ≡ ptr (add_u64 a.ptr offset))
  unfolding read_remote_ptr
  read_remote_ptr-inside body p h =
      let (a, found, rest) = >>=-eq-decoded (find_or _ (find_allocation s (read_u64 body))) _ p h in
      let (u, inside, done) =
        >>=-eq-decoded (require (ltb (read_u64 (drop 8 body)) a.size) _) _ p rest in
      (
        read_u64 body,
        read_u64 (drop 8 body),
        a,
        find_or-eq-decoded _ (find_allocation s (read_u64 body)) a found,
        ltb→lt _ _ (require-eq-decoded (ltb (read_u64 (drop 8 body)) a.size) _ u inside),
        cc,
      )

same_known_kind-eq : (a b : ArgKind) → same_known_kind a b ≡ true → a ≡ b
unfolding same_known_kind
same_known_kind-eq global_buffer global_buffer h = refl
same_known_kind-eq by_value by_value h = refl
same_known_kind-eq global_buffer by_value h = cc
same_known_kind-eq global_buffer unknown h = cc
same_known_kind-eq by_value global_buffer h = cc
same_known_kind-eq by_value unknown h = cc
same_known_kind-eq unknown b h = cc

-- What the metadata says of an argument of a kind.
fits_metadata-eq :
    (meta : ArgMeta) (kind n : ℕ)
    → fits_metadata meta kind n ≡ true
    → (meta.kind ≡ wire_arg_expected_meta_kind kind) × (meta.size ≡ wire_arg_abi_size kind n)
unfolding fits_metadata
fits_metadata-eq meta kind n h =
    let same = same_known_kind-eq meta.kind (wire_arg_expected_meta_kind kind) in
    (ground (arith, same), ground arith)

module _ (s : ServerSession) (meta : ArgMeta) (kind : ℕ) (body : List ℕ)
    (fits : fits_metadata meta kind (length body) ≡ true) where
  -- The cases of the switch.
  param-FitsMeta : (p : KernelParam) → read_param false s kind body ≡ decoded p → FitsMeta s meta p
  unfolding read_param wire_arg_expected_meta_kind wire_arg_abi_size
  param-FitsMeta p h =
      let (k, n) = fits_metadata-eq meta kind (length body) fits in
      elim (Bool-cases (kind == arg_remote_ptr)) [
        | inl q ↦
            let (id, offset, a, found, inside, e) =
              read_remote_ptr-inside s body p (ground arith) in
            rw e (ground arith, ground arith, (id, offset, a, found, inside, refl))
        | inr not_ptr ↦ elim (Bool-cases (kind == arg_i32)) [
          | inl q ↦
              let e : p ≡ i32 (read_u32 body) = ground arith in rw e (ground arith, ground arith)
          | inr not_i32 ↦ elim (Bool-cases (kind == arg_u64)) [
            | inl q ↦
                let e : p ≡ u64 (read_u64 body) = ground arith in rw e (ground arith, ground arith)
            | inr not_u64 ↦ elim (Bool-cases (kind == arg_f32)) [
              | inl q ↦
                  let e : p ≡ f32 (read_u32 body) = ground arith in
                  rw e (ground arith, ground arith)
              | inr not_f32 ↦ elim (Bool-cases (kind == arg_raw_value)) [
                | inl q ↦ let e : p ≡ raw body = ground arith in rw e (ground arith, ground arith)
                | inr no_kind ↦ absurd (ground arith)
              ]
            ]
          ]
        ]
      ]

module _ (s : ServerSession) where
  decode_arg-FitsMeta :
      (meta : ArgMeta) (rest : List ℕ) (p : KernelParam) (rest' : List ℕ)
      → decode_arg false s meta rest ≡ decoded (p, rest')
      → FitsMeta s meta p
  unfolding decode_arg
  decode_arg-FitsMeta meta rest p rest' h =
      let kind = read_u32 rest in
      let size = read_u32 (drop 4 rest) in
      let body = drop 8 rest in
      let (_, _, h1) = >>=-eq-decoded (require (not (ltb (length rest) 8)) _) _ (p, rest') h in
      let (u, enough, h2) =
        >>=-eq-decoded (require (not (ltb (length body) size)) _) _ (p, rest') h1 in
      let (_, _, h3) = >>=-eq-decoded (require (has_wire_size kind size) _) _ (p, rest') h2 in
      let (v, fits, h4) =
        >>=-eq-decoded (require (fits_metadata meta kind size) _) _ (p, rest') h3 in
      let (q, read, done) =
        >>=-eq-decoded (read_param false s kind (take size body)) _ (p, rest') h4 in
      let room = require-eq-decoded (not (ltb (length body) size)) _ u enough in
      let whole : length (take size body) ≡ size = ground (arith, length-take size body, room) in
      let same : q ≡ p = cc in
      rw (← same) (
        param-FitsMeta s meta kind (take size body)
          (rw whole (require-eq-decoded (fits_metadata meta kind size) _ v fits)) q read)

  decode_args-AllFit :
      (metas : List ArgMeta) (rest : List ℕ) (params : List KernelParam) (rest' : List ℕ)
      → decode_args false s metas rest ≡ decoded (params, rest')
      → AllFit s metas params
  unfolding decode_args
  decode_args-AllFit [] rest params rest' h = let e : params ≡ [] = cc in rw e tt
  decode_args-AllFit (meta ∷ metas) rest params rest' h =
      let ((p, left), first, h1) =
        >>=-eq-decoded (decode_arg false s meta rest) _ (params, rest') h in
      let ((ps, last), others, h2) =
        >>=-eq-decoded (decode_args false s metas left) _ (params, rest') h1 in
      let e : params ≡ p ∷ ps = cc in
      rw e
        (decode_arg-FitsMeta meta rest p left first, decode_args-AllFit metas left ps last others)

false_of_not : (b : Bool) → not b ≡ true → b ≡ false
false_of_not true h = cc
false_of_not false h = refl

-- What the server asks of the driver for a launch.
pub record IsLaunch (s : ServerSession) (l : DecodedKernelLaunch) : Type 0 where
  pub known : (id : ℕ) × (find_kernel s id ≡ some l.kernel)
  pub stream_known : (id : ℕ) × (resolve_stream_id s id ≡ some l.stream)
  pub described : l.kernel.metadata_valid ≡ true
  pub sized : (has_zero l.grid || has_zero l.block) ≡ false
  pub params_fit : AllFit s l.kernel.metadata.args l.params

decode_kernel_launch-IsLaunch :
    (s : ServerSession) (payload : List ℕ) (l : DecodedKernelLaunch)
    → decode_kernel_launch false s payload ≡ decoded l
    → IsLaunch s l
unfolding decode_kernel_launch
decode_kernel_launch-IsLaunch s payload l h =
    let argc = read_u32 (drop 44 payload) in
    let zero = has_zero (read_dim3 (drop 16 payload)) || has_zero (read_dim3 (drop 28 payload)) in
    let (_, _, h1) = >>=-eq-decoded (require (not (ltb (length payload) 48)) _) _ l h in
    let (_, _, h2) = >>=-eq-decoded (require (leb argc 32) _) _ l h1 in
    let (k, known, h3) = >>=-eq-decoded (find_or _ (find_kernel s (read_u64 payload))) _ l h2 in
    let (v, valid, h4) = >>=-eq-decoded (require k.metadata_valid _) _ l h3 in
    let (_, _, h5) = >>=-eq-decoded (require (argc == length k.metadata.args) _) _ l h4 in
    let (stream, streams, h6) =
      >>=-eq-decoded (find_or _ (resolve_stream_id s (read_u64 (drop 8 payload)))) _ l h5 in
    let ((params, rest), read, h7) =
      >>=-eq-decoded (decode_args false s k.metadata.args (drop 48 payload)) _ l h6 in
    let (_, _, h8) = >>=-eq-decoded (require (length rest == 0) _) _ l h7 in
    let (z, nonzero, h9) = >>=-eq-decoded (require (not zero) _) _ l h8 in
    let same_kernel : l.kernel ≡ k = cc in
    let same_stream : l.stream ≡ stream = cc in
    let same_grid : l.grid ≡ read_dim3 (drop 16 payload) = cc in
    let same_block : l.block ≡ read_dim3 (drop 28 payload) = cc in
    let same_params : l.params ≡ params = cc in
    record {
      known = (
        read_u64 payload,
        rw same_kernel (find_or-eq-decoded _ (find_kernel s (read_u64 payload)) k known),
      );
      stream_known = (
        read_u64 (drop 8 payload),
        rw same_stream
            (find_or-eq-decoded _ (resolve_stream_id s (read_u64 (drop 8 payload))) stream streams),
      );
      described = rw same_kernel (require-eq-decoded k.metadata_valid _ v valid);
      sized =
          let nonzero' = require-eq-decoded (not zero) _ z nonzero in
          rw (same_grid, same_block) (false_of_not zero nonzero');
      params_fit =
          rw (same_kernel, same_params)
            (decode_args-AllFit s k.metadata.args (drop 48 payload) params rest read);
    }

-- A launch request changes no session. Either it makes no call of the driver and its status is not
-- `ST_OK`, or it makes one: the launch of a kernel that the session knows and whose metadata is there, on
-- a stream of the session, with no zero dimension, and with a parameter of the described kind and size
-- for each argument of the metadata, where a pointer is into an allocation that the session knows. Then
-- the status is `ST_OK` if the driver has launched, and `ST_CUDA_ERROR` if not.
pub handle_launch_generic-IsLaunch :
    (d : Driver) (w : World) (payload : List ℕ)
    → ((status : ProtocolStatus) × (status ≢ ok)
        × (handle_launch_generic d w payload ≡ (w, record { status = status; payload = [] })))
      ⊎ ((l : DecodedKernelLaunch) × IsLaunch w.session l
          × ((handle_launch_generic d w payload).0 ≡ called (launch_call l) w)
          × ((handle_launch_generic d w payload).1.status
              ≡ (if succeeds (ask d (launch_call l) w).result then ok else cuda_error)))
unfolding handle_launch_generic
handle_launch_generic-IsLaunch d w payload = go (decode_kernel_launch false w.session payload) refl
  where
    go :
        (r : Decoded DecodedKernelLaunch)
        → decode_kernel_launch false w.session payload ≡ r
        → ((status : ProtocolStatus) × (status ≢ ok)
            × (handle_launch_generic d w payload ≡ (w, record { status = status; payload = [] })))
          ⊎ ((l : DecodedKernelLaunch) × IsLaunch w.session l
              × ((handle_launch_generic d w payload).0 ≡ called (launch_call l) w)
              × ((handle_launch_generic d w payload).1.status
                  ≡ (if succeeds (ask d (launch_call l) w).result then ok else cuda_error)))
    go (refused status) e = inl (
      status,
      (λ success. decode_kernel_launch-Refuses w.session payload (e ∙ ap (λ x. refused x) success)),
      rw (e, handle_launch_generic) refl,
    )
    go (decoded l) e = inr (
      l,
      decode_kernel_launch-IsLaunch w.session payload l e,
      rw (e, handle_launch_generic) refl,
      rw (e, handle_launch_generic) refl,
    )
