-- ===== src/Lib.antt =====
-- pd-bridge: a prefill engine on one machine (vLLM, directory spark/) computes the K/V rows of a
-- prompt and streams them to a decoder on another (oMLX, directory studio/), which then starts at the
-- end of the prompt instead of computing it again. This library models the streaming side.
--
-- Connector/ models spark/pd_kv_connector.py, the engine's connector:
--   Tags         `_TAG_RE`, `_MODEL_RE`, `_tag_of`; proofs in Words
--   Scheduler    `build_connector_meta`, `_emit`, `request_finished`: the scheduler process keeps the
--                tracked requests and hands each step's `_Chunk`s to the worker process; proofs in
--                Tiling and Steps
--   Layout       `_detect_layout`, `_gather_kv`, the rows of `save_kv_layer`
--   Capture      `_Capture`, `_RdmaTx.block`, `_RdmaTx.oblk`, `_send_block`, `_sender_loop`
--   Cut          `_cut_blocks`, `_ingest`
--   Wire         the element order of a block on the wire; proofs in Slices and Elements
--   Seal         `_manifest`, `_tail_blob`, `_finish`, `_finish_rdma`
--   Worker       `_caps`, the end of `_ingest`, `wait_for_save`
--   Delivery     proofs on a capture's life; Life has the events, Complete the theorems
-- OmlxBlock/ models spark/pd_omlx_block.py:
--   Text         what it uses of `str`, `json.dumps` and `bytes`
--   Hashes       `chain_hashes`; SHA-256 is a parameter
--   Header       `header`, byte by byte
--   Decimal, Hexadecimal, Chain, Collision, Alignment   proofs on them
-- Pool and Pool/ model `pool_layer` and `pool_chunks` of spark/pd_pool_torch.py, which pool windows of
--   rows call by call; Windows, Calls, Behind and Chunks have the proofs
-- Hook and Hook/ model spark/capture_sitecustomize_v3.py, the capture hook of an engine whose layers
--   need pooled rows:
--   Boundaries   `_boundaries`
--   Windows      `_KVState`; proofs in Whole and Bounds
--   Pools        `_PoolState`, which calls `pool_layer`; proofs in Whole and Export
--   Finish       `_Req`, `_finish`; proofs in Contents
--   Ingest       `ingest`, `_worker`; proofs in Tables, Layers, Whole, Complete and Partial
--   Record       `record`, `_resolve_chunk`, the projection in `_process`; proofs in Pieces
--   Flush        `_flush_decision`, `_watch`; proofs in Signal
-- Front and Front/ model studio/pd_front.py, the front door of the decoder:
--   Manifests    `stamp_deadline`, `_cap_usable_prefix`, the end of `_pull_and_assemble`
--   Pooled       `spark_prefill_pooled`; proofs in Sound and Ends
--   Kv           `spark_prefill_kv`, `spark_prefill_kv_stream`, `_wait_done_then_pull`,
--                `_RdmaClient.pull`, `cached_prefix_tokens`; proofs in Ends and Landed
--   Pipelined    the loop of `spark_prefill_pipelined`; proofs in Tiles
--   Bridge       `bridge`, `bridge_via_main`, the main loop, `do_POST`; a proof in Replies
-- KvReturn and KvReturn/Merge model `usable_prefix` and `merge_prefix` of
--   studio/kv_return/pd_kv_return.py, on the layer files of Hook
-- KvReturn/Resume models the resumption of a capture in spark/capture_sitecustomize_v3.kvreturn.py, the
--   hook with KV return: `_kvr_resume`, `seed`; proofs in Choices, Windows, Carries and Pools
-- Segments models the streamed segments of that hook: `take_pooled`, `_emit_segment`, `_stream_emit`;
--   proofs in Pools and Rows (what a segment takes) and Order (which segments there are)
-- Writer and Writer/ model studio/omlx_block_writer.py, which stores the snapshots at block boundaries:
--   Finalize     `finalize`, `chain_hashes`, `_drain`, `write_blocks`
--   Stored, Boundaries, Life, Complete, Ends   proofs on the store, the boundaries that are stored,
--                the life of a writer, its end, and how its loops end
-- Decoder and Decoder/ model studio/pd_omlx_hooks.py, in the decoder's server: `_Stage`,
--   `_stage_request`, `_staged_restore`; proofs in Staged, Landings, Restore and
--   Handed
--   Tail         `_install_tail`; proofs in Whole and Partial
--   Reserve      spare rows behind restored blocks
-- Assembly models the boundary loop of studio/pd_assemble_blocks.py and the block loop of
--   studio/pd_assemble_kv.py; proofs in Complete
-- Stages models flashpp/net.py, the messages between pipeline stages; proofs in Framing
-- Prelude has lists and tests on native numbers; Tests has runs at concrete inputs.
--
-- Threads. The forward thread cuts blocks and puts them into a bounded queue, the sender thread sends
-- them. A capture is modelled with its own items of the queue. `Round` says what the sender thread does
-- before a round of the cutting loop, and the event `sends` what it does between two steps; both are any
-- lists of turns, so every interleaving at the granularity of one send is covered. What the thread does for
-- captures of other tags, which share its queue, is not modelled. A full queue makes
-- the forward thread wait, which is one of these schedules. What a send meets (no sender, the capacity
-- of the buffer, the library's return code) is the turn's `Outcome`.
--
-- The front door's loops run over a list of rounds, each with what the share, the engine and the clock
-- answer; a round that is not in the list has not happened, and the termination theorems say which rounds
-- are enough.
--
-- Numbers are natural numbers: token positions, rows and bytes are not negative in the source either.
-- A tensor is a function from its indices, so that a copy, a view and a permutation are that function
-- again. The loops of the source run over lists or ranges, or over a number of rounds that is computed first,
-- and are structural recursion here; `digits` and `pieces` have fuel, one more than the number and than the
-- rows, which is more than the digits and the pieces.
--
-- Not modelled: the timing counters and log lines; the opening and closing of the RDMA sender and the
-- C library behind it; the pool compressor's floating point, rope tables and weight files; the hook's
-- projections, CUDA streams and statistics; the memory guard, the pruning and the files of the hook with
-- KV return; the front door's file transfers, its streaming path and the assembly of caches; how the
-- block writer takes the state out of the decoder's caches, and the timing patches of the decoder's hooks;
-- the split execution, what the pipeline stages compute, the fabric scripts, benchmarks and tests.
mod Prelude
pub mod OmlxBlock
pub mod Connector
pub mod Pool
pub mod Hook
pub mod Front
pub mod KvReturn
pub mod Assembly
pub mod Stages
pub mod Writer
pub mod Decoder
pub mod Segments
mod Tests
