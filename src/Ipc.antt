-- ===== src/Ipc.antt =====
-- What the four IPC servers under src/ share: the UTCB as they see it through `l4_utcb_mr` and
-- `l4_utcb_br`, the helpers `br_clear`, `br_write_bytes`, `br_read_bytes` and `br_read_exact` that
-- each of them repeats, the errno encoding, and the slab crate as an interface.
pub mod Slab
pub mod Buffer
pub mod Loop
use l4rerust.Base.{
  ℕ, ◌+◌, ◌-◌, ◌*◌, Option, none, some, List, [], ◌++◌, min, ltb, ◌==◌, if◌then◌else◌, length, take,
  drop,
}
use l4rerust.Base.Int.{ℤ, pos, neg}
use l4rerust.Base.Word.{as_u64}

-- The message registers by index, the first buffer register `br[0]`, and the bytes of the others.
pub record Utcb : Type 0 where
  pub mr : ℕ → ℕ
  pub len : ℕ
  pub payload : List ℕ

-- `mr[i] = v`
abbrev pub set_mr : ℕ → ℕ → Utcb → Utcb
set_mr i v u = record u { mr = λ j. if i == j then v else u.mr j }

-- The constants of libc that the servers name.
pub record Errno : Type 0 where
  pub eio : ℕ
  pub enoent : ℕ
  pub ebadf : ℕ
  pub einval : ℕ
  pub enosys : ℕ
  pub eoverflow : ℕ

-- `(-(err as i64)) as u64`
abbrev pub encode : ℤ → ℕ
encode err = as_u64 (neg err)

-- `io::Error::last_os_error().raw_os_error().unwrap_or(libc::EIO)`, encoded; the argument is what
-- `raw_os_error` returns.
unfoldable pub encode_errno : Errno → Option ℤ → ℕ
encode_errno e none = encode (pos e.eio)
encode_errno e (some err) = encode err

-- `BR_WORDS.saturating_sub(1) * size_of::<u64>()`
abbrev pub br_data_bytes : ℕ → ℕ
br_data_bytes br_words = (br_words - 1) * 8

abbrev pub br_clear : Utcb → Utcb
br_clear u = record u { len = 0 }

-- The bytes go over the front of the payload; what lies behind them stays.
unfoldable pub br_write_bytes : ℕ → List ℕ → Utcb → Utcb
br_write_bytes br_words bytes u =
    let n = min (length bytes) (br_data_bytes br_words) in
    record u { len = n; payload = take n bytes ++ drop n u.payload }

unfoldable pub br_read_bytes : ℕ → Utcb → List ℕ
br_read_bytes br_words u = take (min u.len (br_data_bytes br_words)) u.payload

unfoldable pub br_read_exact : ℕ → Utcb → Option (List ℕ)
br_read_exact n u =
    if n == 0 then some [] else if ltb u.len n then none else some (take n u.payload)

-- A table of a server, the UTCB, and the state of what the server calls.
pub record Ctx (T W : Type 0) : Type 0 where
  pub table : T
  pub utcb : Utcb
  pub os : W

-- `mr[0] = v; br_clear()`, after which the handlers return.
abbrev pub reply : {T W : Type 0} → ℕ → Ctx T W → Ctx T W
reply v c = record c { utcb = br_clear (set_mr 0 v c.utcb) }
