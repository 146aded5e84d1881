-- ===== src/OmlxBlock.antt =====
-- spark/pd_omlx_block.py: the prefix-cache block files of the decoder, built on the prefill side.
-- `Text` has the parts of Python's `str`, `json` and `struct` that it uses.
pub mod Text
pub mod Hexadecimal
pub mod Hashes
pub mod Header
pub mod Alignment
pub mod Decimal
pub mod Chain
pub mod Collision
