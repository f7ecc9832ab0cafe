-- ===== src/Rs.antt =====
-- libndnpaxos/rs_encoder.hpp and rs_decoder.hpp: splitting a value into Reed-Solomon blocks and
-- joining them. The code calls libzfec, a copy of the zfec library, which is the parameter `Fec`.
-- An object keeps its accumulated result between two calls, as the source does.
pub mod Split
pub mod Pick
pub mod RoundTrip
pub mod Lengths
pub mod Unrecovered
use ndnpaxos.Prelude.{
  ℕ, zero, suc, ◌+◌, ◌-◌, ◌*◌, ◌/◌, Bool, ◌&&◌, ◌||◌, not, true, false, ◌^◌, List, [], ◌∷◌, ◌++◌,
  Option, none, some, take, drop, length, get_elem?, count_from, leb, ◌==◌, if◌then◌else◌, Outcome,
  ok, fault, deref, ◌>>=◌,
}
use ndnpaxos.Types.{Bytes}

-- libzfec. `fec_encode k n src nums size`: the blocks numbered `nums` of the data blocks `src`, `size`
-- bytes each. `fec_decode k n blocks index size`: the data blocks that `index` lacks, in order, from
-- `k` blocks and their numbers.
pub record Fec : Type 0 where
  pub fec_encode : ℕ → ℕ → List Bytes → List ℕ → ℕ → List Bytes
  pub fec_decode : ℕ → ℕ → List Bytes → List ℕ → ℕ → List Bytes

pub record RsEncoder : Type 0 where
  pub k : ℕ
  pub n : ℕ
  pub encoded_data : List Bytes

pub record RsDecoder : Type 0 where
  pub k : ℕ
  pub n : ℕ
  pub decoded_data : Bytes

abbrev pub new_encoder : ℕ → ℕ → RsEncoder
new_encoder k n = record { k = k; n = n; encoded_data = [] }

abbrev pub new_decoder : ℕ → ℕ → RsDecoder
new_decoder k n = record { k = k; n = n; decoded_data = [] }

-- `size` bytes from `start` behind the pointer `data.c_str()`, which ends in one zero byte.
unfoldable pub read_bytes : Bytes → ℕ → ℕ → Outcome Bytes
read_bytes content start size =
    if leb (start + size) (length content + 1)
    then ok (take size (drop start (content ++ 0 ∷ [])))
    else fault

-- `content.substr(start, size)`, which throws if `start` lies behind the end.
unfoldable pub substr : Bytes → ℕ → ℕ → Outcome Bytes
substr content start size =
    if leb start (length content) then ok (take size (drop start content)) else fault

-- The first loop of `rs_encode`: what is stored, for `rounds` blocks from block `i` on.
unfoldable pub split_blocks : Bytes → ℕ → ℕ → ℕ → Outcome (List Bytes)
unfolding substr
split_blocks content size i zero = ok []
split_blocks content size i (suc rounds) = do
  part ← substr content (i * size) size
  rest ← split_blocks content size (suc i) rounds
  ok (part ∷ rest)

-- What the code library reads behind the pointers of that loop.
unfoldable pub source_blocks : Bytes → ℕ → ℕ → ℕ → Outcome (List Bytes)
unfolding read_bytes
source_blocks content size i zero = ok []
source_blocks content size i (suc rounds) = do
  src ← read_bytes content (i * size) size
  rest ← source_blocks content size (suc i) rounds
  ok (src ∷ rest)

-- `c_ = n_ - k_`, a node_id_t, which wraps if `n_` is smaller.
abbrev pub check_blocks : ℕ → ℕ → ℕ
check_blocks k n = if leb k n then n - k else n + 2 ^ 16 - k

-- `ceil(double(size) / k)`
abbrev pub block_size : ℕ → ℕ → ℕ
block_size size k = (size + k - 1) / k

-- With no block to make, the code library reads no data block; what stands for them is not used then.
unfoldable pub rs_encode : Fec → Bytes → RsEncoder → Outcome (List Bytes × RsEncoder)
unfolding split_blocks source_blocks
rs_encode fec content e = if e.k == 0 then fault else do
  let size = block_size (length content) e.k
  let c = check_blocks e.k e.n
  parts ← split_blocks content size 0 e.k
  sources ← if c == 0 then ok parts else source_blocks content size 0 e.k
  let parity = fec.fec_encode e.k e.n sources (count_from e.k c) size
  let all = e.encoded_data ++ (parts ++ parity)
  ok (all, record e { encoded_data = all })

-- `while (!map[r]) r++`: the first block from `r` on that is there. `at` is the number of the first
-- entry of the list.
unfoldable pub next_present : List Bool → ℕ → ℕ → Option ℕ
next_present [] at r = none
next_present (b ∷ map) at r = if leb r at && b then some at else next_present map (suc at) r

-- Whether one of the `rounds` blocks from `i` on is missing.
unfoldable pub any_missing : List Bool → ℕ → ℕ → Bool
any_missing map i zero = false
any_missing map i (suc rounds) =
    elim (get_elem? map i) [ none ↦ true | some here ↦ not here ] || any_missing map (suc i) rounds

-- What the code library takes of a block: `size` bytes behind its pointer, if it reads the blocks.
abbrev pub read_block : Bool → Bytes → ℕ → Outcome Bytes
read_block reads block size = if reads then read_bytes block 0 size else ok block

-- The loop that picks `rounds` blocks from block `i` on, a missing one replaced by the next block from
-- `r` on that is there: their bytes and their numbers.
unfoldable pub pick_blocks :
    Bool → List Bytes → List Bool → ℕ → ℕ → ℕ → ℕ → Outcome (List Bytes × List ℕ)
unfolding read_bytes next_present
pick_blocks reads blocks map size r i zero = ok ([], [])
pick_blocks reads blocks map size r i (suc rounds) = do
  here ← deref (get_elem? map i)
  number ← if here then ok i else deref (next_present map 0 r)
  block ← deref (get_elem? blocks number)
  content ← read_block reads block size
  rest ← pick_blocks reads blocks map size (if here then r else suc number) (suc i) rounds
  ok (content ∷ rest.0, number ∷ rest.1)

-- The last loop: blocks that are there, and recovered ones in place of the others.
unfoldable pub join_blocks : List Bytes → List Bool → List Bytes → ℕ → ℕ → Outcome Bytes
join_blocks blocks map recovered i zero = ok []
join_blocks blocks map recovered i (suc rounds) = do
  here ← deref (get_elem? map i)
  part ← if here then deref (get_elem? blocks i) else deref (get_elem? recovered 0)
  rest ← join_blocks blocks map (if here then recovered else drop 1 recovered) (suc i) rounds
  ok (part ++ rest)

-- `lost_num` only sizes the buffer of the recovered blocks. `fec_decode` reads the picked blocks only if a
-- data block is missing.
unfoldable pub rs_decode : Fec → List Bytes → List Bool → RsDecoder → Outcome (Bytes × RsDecoder)
unfolding any_missing pick_blocks join_blocks
rs_decode fec blocks map d = do
  first ← deref (get_elem? blocks 0)
  let size = length first
  picked ← pick_blocks (any_missing map 0 d.k) blocks map size d.k 0 d.k
  let recovered = fec.fec_decode d.k d.n picked.0 picked.1 size
  joined ← join_blocks blocks map recovered 0 d.k
  let all = d.decoded_data ++ joined
  ok (all, record d { decoded_data = all })
