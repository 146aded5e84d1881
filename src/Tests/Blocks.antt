-- ===== src/Tests/Blocks.antt =====
-- Block files and their hashes at concrete inputs. In place of SHA-256 stands the start of the text.
use pd_bridge.Prelude.{
  ℕ, ◌+◌, ◌*◌, ◌<◌, ◌≡◌, ◌⊎◌, refl, true, false, some, List, [], ◌∷◌, ◌++◌, arith, length, take,
  get_elem?, replicate, length-take, length-append, if◌then◌else◌, ltb,
}
use pd_bridge.Connector.Layout.{Col}
use pd_bridge.Connector.Wire.{wire_oblk}
use pd_bridge.Connector.Wire.Elements.{wire_oblk-element}
use pd_bridge.Connector.Capture.{Geometry, numel, tx_oblk}
use pd_bridge.Connector.Capture.Sizes.{tx_oblk_lem}
use pd_bridge.OmlxBlock.Text.{codes, from_hex, join, json_string, decimal, json_array, hex}
use pd_bridge.OmlxBlock.Hashes.{chain_hashes}
use pd_bridge.OmlxBlock.Header.{document, padding, header, tensor_entry, tensor_entries}
use pd_bridge.OmlxBlock.Alignment.{range_of, IsHeader, header_lem}
use pd_bridge.OmlxBlock.Collision.{Collision, chain_hashes-AreSame}

abbrev start_of : List ℕ → List ℕ
start_of x = take 32 (x ++ replicate 32 0)

width : (x : List ℕ) → length (start_of x) ≡ 32
width x =
    omega (
      arith,
      length-take 32 (x ++ replicate {A = ℕ} 32 0),
      length-append x (replicate {A = ℕ} 32 0),
    )

abbrev three : List ℕ
three = 1 ∷ 2 ∷ 3 ∷ []

abbrev four : List ℕ
four = 1 ∷ 2 ∷ 4 ∷ 5 ∷ []

abbrev model : List ℕ
model = codes "glm"

same :
    get_elem? (chain_hashes start_of model 2 three) 0
    ≡ get_elem? (chain_hashes start_of model 2 four) 0
unfolding chain_hashes
same = refl

chain_hashes-AreSame_example : (take 2 three ≡ take 2 four) ⊎ Collision start_of model 2 three four
chain_hashes-AreSame_example =
    chain_hashes-AreSame start_of width model 2 0 three four (omega arith) (omega arith)
      (omega arith) same

abbrev a_hash : List ℕ
a_hash = 171 ∷ 205 ∷ []

short :
    length (document a_hash model 2 1 1 1 (codes "7.5"))
      + length (padding (length (document a_hash model 2 1 1 1 (codes "7.5"))))
    < range_of 8
unfolding document padding range_of join json_string decimal json_array hex
short = omega arith

header_lem_example :
    IsHeader
      (document a_hash model 2 1 1 1 (codes "7.5"))
      (header a_hash model 2 1 1 1 (codes "7.5")).0
    × ((header a_hash model 2 1 1 1 (codes "7.5")).1 ≡ 8)
header_lem_example = header_lem a_hash model 2 1 1 1 (codes "7.5") short

-- two rows of two layers, two heads and two dimensions
abbrev cols : List (Col ℕ)
cols =
    (λ l s h d. 1000 * l + 100 * s + 10 * h + d) ∷ (λ l s h d. 1005 * l + 100 * s + 10 * h + d) ∷ []

wire_oblk-element_example :
    (get_elem? (wire_oblk 2 2 2 cols) 31 ≡ some 1116)
    × (get_elem? (tensor_entries 2 2 2 2 0 0) 3 ≡ some (tensor_entry 2 2 2 1 1 48))
wire_oblk-element_example =
    wire_oblk-element 2 2 2 1 1 1 1 1 cols (λ l s h d. 1005 * l + 100 * s + 10 * h + d)
      (omega arith) (omega arith) refl (omega arith) (omega arith)

abbrev geometry : Geometry
geometry = record { layers = 2; heads = 2; head_dim = 2; omlx_block = 2; rdma_async = true }

parsed : from_hex (codes "abcd") ≡ some a_hash
unfolding from_hex
parsed = refl

tx_oblk_lem_example : tx_oblk geometry (codes "abcd") model cols 5000 (codes "7.5") true ≡ (
    if ltb 5000 (length (header a_hash model 2 2 2 2 (codes "7.5")).0 + numel geometry 2 * 2)
    then false
    else true)
tx_oblk_lem_example =
    tx_oblk_lem geometry (codes "abcd") model a_hash cols 5000 (codes "7.5") true parsed
