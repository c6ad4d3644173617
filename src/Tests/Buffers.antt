-- ===== src/Tests/Buffers.antt =====
-- A ring buffer whose bytes go round the end of the array.
use dde_seatd.Prelude.{◌+◌, ◌%◌, ◌≡◌, refl, [], ◌∷◌, ◌++◌, some, arith, replicate}
use dde_seatd.Buffer.{Buffer, u32_mod, size, copy, put, get_iov, put_iov, gather, scatter, iov_len}
use dde_seatd.Buffer.Refine.{
  IsValid, contents, put-contents, gather-get_iov, iov_len-put_iov, received,
}

abbrev pub wrapped : Buffer
wrapped = record { head = 258; tail = 250; bytes = 5 ∷ 6 ∷ replicate 254 7 }

pub wrapped-IsValid : IsValid wrapped
unfolding size
wrapped-IsValid = record {
  head_range = omega arith;
  tail_range = omega arith;
  fits = omega arith;
  storage = refl;
}

copy_runs : copy wrapped 7 ≡ 7 ∷ 7 ∷ 7 ∷ 7 ∷ 7 ∷ 7 ∷ 5 ∷ []
unfolding copy
copy_runs = refl

put-contents_example :
    (b : Buffer) × (put wrapped (1 ∷ 2 ∷ []) ≡ some b)
    × (contents b ≡ contents wrapped ++ 1 ∷ 2 ∷ [])
    × IsValid b
unfolding size
put-contents_example = put-contents wrapped (1 ∷ 2 ∷ []) wrapped-IsValid (omega arith)

gather-get_iov_example : gather wrapped.bytes (get_iov wrapped) ≡ contents wrapped
unfolding size
gather-get_iov_example = gather-get_iov wrapped wrapped-IsValid (omega arith)

iov_len-put_iov_example : iov_len (put_iov wrapped) + size wrapped ≡ 256
unfolding size
iov_len-put_iov_example = iov_len-put_iov wrapped wrapped-IsValid (omega arith)

-- Two bytes have arrived.
abbrev arrived : Buffer
arrived = record wrapped {
  head = (258 + 2) % u32_mod;
  bytes = scatter wrapped.bytes (put_iov wrapped) (1 ∷ 2 ∷ []);
}

received_example : (contents arrived ≡ contents wrapped ++ 1 ∷ 2 ∷ []) × IsValid arrived
unfolding size
received_example = received wrapped (1 ∷ 2 ∷ []) wrapped-IsValid (omega arith) (omega arith)
