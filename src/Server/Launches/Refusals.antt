-- ===== src/Server/Launches/Refusals.antt =====
-- The refusals of server/runtime_server.c: no status that a request is refused with is `ST_OK`.
use x_remote_runtime.Prelude.{
  ℕ, ◌≡◌, ◌≢◌, ap, arith, Option, none, some, List, [], ◌∷◌, Bool, true, false, not, ◌==◌, ◌||◌,
  ltb, leb, length, take, drop, Bool-cases, inl, inr,
}
use x_remote_runtime.Protocol.Words.{read_u32, read_u64}
use x_remote_runtime.Metadata.Module.{ArgMeta}
use x_remote_runtime.Server.Session.{
  ServerSession, ProtocolStatus, ok, bad_request, not_found, abi_mismatch, metadata_error,
  find_allocation, find_kernel, resolve_stream_id,
}
use x_remote_runtime.Server.Launches.{
  Decoded, refused, decoded, ◌>>=◌, require, find_or, read_remote_ptr, read_param, decode_arg,
  decode_args, decode_kernel_launch, has_wire_size, fits_metadata, has_zero, read_dim3,
  arg_remote_ptr, arg_i32, arg_u64, arg_f32, arg_raw_value, launch_max_args,
}

-- A refusal is not a success.
abbrev pub Refuses {ℓ} : {A : Type ℓ} → Decoded A → Type ℓ
Refuses r = r ≢ refused ok

pub refused-ne {ℓ} :
    {A : Type ℓ} (status : ProtocolStatus) → status ≢ ok → Refuses {A = A} (refused status)
refused-ne status h e = let same : status ≡ ok = cc in absurd (h same)

pub decoded-ne {ℓ} : {A : Type ℓ} (a : A) → Refuses (decoded a)
decoded-ne a h = cc

pub >>=-Refuses {ℓ κ} :
    {A : Type ℓ} {B : Type κ} (m : Decoded A) (f : A → Decoded B)
    → Refuses m
    → ((a : A) → Refuses (f a))
    → Refuses (m >>= f)
>>=-Refuses (refused status) f h k = refused-ne status (λ same. h (ap (λ x. refused x) same))
>>=-Refuses (decoded a) f h k = k a

pub require-Refuses : (b : Bool) (e : ProtocolStatus) → e ≢ ok → Refuses (require b e)
require-Refuses true e h = decoded-ne tt
require-Refuses false e h = refused-ne e h

pub find_or-Refuses {ℓ} :
    {A : Type ℓ} (e : ProtocolStatus) (o : Option A) → e ≢ ok → Refuses (find_or e o)
find_or-Refuses e none h = refused-ne e h
find_or-Refuses e (some a) h = decoded-ne a

bad-ne-ok : bad_request ≢ ok
bad-ne-ok h = ground (arith, h)

missing-ne-ok : not_found ≢ ok
missing-ne-ok h = ground (arith, h)

mismatch-ne-ok : abi_mismatch ≢ ok
mismatch-ne-ok h = ground (arith, h)

metadata-ne-ok : metadata_error ≢ ok
metadata-ne-ok h = ground (arith, h)

-- A test that fails is a refusal.
pub check-Refuses {ℓ} :
    {A : Type ℓ} (b : Bool) (e : ProtocolStatus) (f : Unit {0} → Decoded A)
    → e ≢ ok
    → Refuses (f tt)
    → Refuses (require b e >>= f)
check-Refuses b e f h k = >>=-Refuses (require b e) f (require-Refuses b e h) (λ _. k)

pub lookup-Refuses {ℓ κ} :
    {A : Type ℓ} {B : Type κ} (e : ProtocolStatus) (o : Option A) (f : A → Decoded B)
    → e ≢ ok
    → ((a : A) → Refuses (f a))
    → Refuses (find_or e o >>= f)
lookup-Refuses e o f h k = >>=-Refuses (find_or e o) f (find_or-Refuses e o h) k

module _ (s : ServerSession) where
  read_remote_ptr-Refuses : (body : List ℕ) → Refuses (read_remote_ptr false s body)
  unfolding read_remote_ptr
  read_remote_ptr-Refuses body =
      lookup-Refuses not_found (find_allocation s (read_u64 body)) _ missing-ne-ok (λ a.
        check-Refuses (ltb (read_u64 (drop 8 body)) a.size) bad_request _ bad-ne-ok (decoded-ne _))

  read_param-Refuses : (kind : ℕ) (body : List ℕ) → Refuses (read_param false s kind body)
  unfolding read_param
  read_param-Refuses kind body = elim (Bool-cases (kind == arg_remote_ptr)) [
    | inl q ↦ rw (q, read_param) (read_remote_ptr-Refuses body)
    | inr q1 ↦ elim (Bool-cases (kind == arg_i32)) [
      | inl q ↦ rw (q1, q, read_param) (decoded-ne _)
      | inr q2 ↦ elim (Bool-cases (kind == arg_u64)) [
        | inl q ↦ rw (q1, q2, q, read_param) (decoded-ne _)
        | inr q3 ↦ elim (Bool-cases (kind == arg_f32)) [
          | inl q ↦ rw (q1, q2, q3, q, read_param) (decoded-ne _)
          | inr q4 ↦ elim (Bool-cases (kind == arg_raw_value)) [
            | inl q ↦ rw (q1, q2, q3, q4, q, read_param) (decoded-ne _)
            | inr q ↦ rw (q1, q2, q3, q4, q, read_param) (refused-ne bad_request bad-ne-ok)
          ]
        ]
      ]
    ]
  ]

  decode_arg-Refuses : (meta : ArgMeta) (rest : List ℕ) → Refuses (decode_arg false s meta rest)
  unfolding decode_arg
  decode_arg-Refuses meta rest =
      let kind = read_u32 rest in
      let arg_size = read_u32 (drop 4 rest) in
      let body = drop 8 rest in
      check-Refuses (not (ltb (length rest) 8)) bad_request _ bad-ne-ok (
        check-Refuses (not (ltb (length body) arg_size)) bad_request _ bad-ne-ok (
          check-Refuses (has_wire_size kind arg_size) bad_request _ bad-ne-ok (
            check-Refuses (fits_metadata meta kind arg_size) abi_mismatch _ mismatch-ne-ok (
              >>=-Refuses (read_param false s kind (take arg_size body)) _
                (read_param-Refuses kind (take arg_size body)) (λ param. decoded-ne _)))))

  decode_args-Refuses :
      (metas : List ArgMeta) (rest : List ℕ) → Refuses (decode_args false s metas rest)
  unfolding decode_args
  decode_args-Refuses [] rest = decoded-ne _
  decode_args-Refuses (meta ∷ metas) rest =
      >>=-Refuses (decode_arg false s meta rest) _ (decode_arg-Refuses meta rest) (λ r.
        >>=-Refuses (decode_args false s metas r.1) _ (decode_args-Refuses metas r.1)
          (λ q. decoded-ne _))

  pub decode_kernel_launch-Refuses :
      (payload : List ℕ) → Refuses (decode_kernel_launch false s payload)
  unfolding decode_kernel_launch
  decode_kernel_launch-Refuses payload =
      let argc = read_u32 (drop 44 payload) in
      let zero = has_zero (read_dim3 (drop 16 payload)) || has_zero (read_dim3 (drop 28 payload)) in
      check-Refuses (not (ltb (length payload) 48)) bad_request _ bad-ne-ok (
        check-Refuses (leb argc launch_max_args) bad_request _ bad-ne-ok (
          lookup-Refuses not_found (find_kernel s (read_u64 payload)) _ missing-ne-ok (λ k.
            check-Refuses k.metadata_valid metadata_error _ metadata-ne-ok (
              check-Refuses (argc == length k.metadata.args) abi_mismatch _ mismatch-ne-ok (
                lookup-Refuses not_found (resolve_stream_id s (read_u64 (drop 8 payload))) _
                  missing-ne-ok
                  (λ stream.
                    >>=-Refuses (decode_args false s k.metadata.args (drop 48 payload)) _
                      (decode_args-Refuses k.metadata.args (drop 48 payload))
                      (λ r.
                        check-Refuses (length r.1 == 0) bad_request _ bad-ne-ok
                          (check-Refuses (not zero) bad_request _ bad-ne-ok (decoded-ne _)))))))))
