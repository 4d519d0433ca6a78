-- ===== src/CircularStack.antt =====
-- src/VCommon/VCommonDefines.h: the template `VCircularStack<T, N>`, and `VSafeCircularStack`, whose
-- methods do the same under a mutex. A `size_t` is 64 bits wide.
pub mod Window
pub mod History
use model_lib.Common.{
  ℕ, ◌+◌, ◌%◌, ◌^◌, Bool, true, false, List, [], ◌++◌, ltb, leb, if◌then◌else◌, set, take, drop,
}

-- `datas` and `index`
pub record CircularStack {ℓ} (A : Type ℓ) : Type ℓ where
  pub datas : List A
  pub index : ℕ

module _ {ℓ} {A : Type ℓ} where
  -- The array keeps what the memory held.
  unfoldable pub new_stack : List A → CircularStack A
  new_stack memory = record { datas = memory; index = 0 }

  unfoldable pub push_back : ℕ → A → CircularStack A → CircularStack A
  push_back n t s = record { datas = set s.datas (s.index % n) t; index = (s.index + 1) % 2 ^ 64 }

  unfoldable pub clear : CircularStack A → CircularStack A
  clear s = record s { index = 0 }

  -- What is copied to `data_`, and the stack with the index that the copy leaves.
  unfoldable pub copy_out : ℕ → CircularStack A → List A × CircularStack A
  copy_out n s =
      if leb n s.index
      then (let i = s.index % n in
          (drop i s.datas ++ (if ltb 0 i then take i s.datas else []), record s { index = i }))
      else (if ltb 0 s.index then take s.index s.datas else [], s)

  -- The number that `get` returns.
  unfoldable pub count_out : ℕ → CircularStack A → ℕ
  count_out n s = if leb n s.index then n else s.index

  -- `get(data_, bReset)`: the count, what is copied, and the stack afterwards.
  unfoldable pub get : ℕ → Bool → CircularStack A → ℕ × List A × CircularStack A
  unfolding copy_out count_out
  get n reset s =
      let (out, s') = copy_out n s in
      (count_out n s, out, if reset then record s' { index = 0 } else s')
