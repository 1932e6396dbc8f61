-- ===== src/Lib.antt =====
-- A model of the Go package mlxgoane, which runs parts of language models on the Apple Neural Engine
-- beside MLX, and of its packages decode and anedraftimpl.
--
-- The program's parts. For each linear layer a routing policy decides between the accelerator and
-- MLX. While a token is decoded, the decode plane sends the hidden state to compiled stages: each
-- stage has a pool of slots, a call leases one slot per stage, writes its input, evaluates, and
-- takes an output view that gives the slot back when it is released. Runs of dense layers may be
-- fused into direct blocks, with pools of the same kind. Stages and blocks are built once, by the
-- first call that needs them, while others wait. A forward pass takes each layer through its
-- attention and then through the accelerator, or through the GPU where that fails. Inputs, outputs
-- and the key and value rows of a draft model live in shared surfaces, some of them strided by a
-- compiled layout. A draft policy read from the environment chooses what is compiled.
--
-- Which file models which part:
--   Routing    routing.go. `decide_linear` is DecideLinear, `linear_macs` is linearMACs, and the
--              profiles are the two ...ForProfile functions.
--   Runtime    runtime.go and linear_vjp.go, Linear and linearForward. `Traced` lists the arrays that a
--              call makes for itself, and `ClosureAnswer` is what the closure's forward comes to.
--   Pool       decode/pool.go, acquireSlot and releaseSlot, on the pool fields of the structs in
--              decode/types.go. A slot is its place in the pool's list.
--   Run        decode/pool.go, from beginPreparedInputTimed and the two fused starts to abort and
--              outputHiddenView. `Outcome` tells an error from a wait for a slot's mutex.
--   Direct     decode/pool.go, the pool of a direct block, whose code is that of a stage.
--   Dispatch   decode/dispatch.go, dispatchPreparedStages and releaseOutputViews. `Step` is a
--              result, a return with an error, or a wait; errors carry the stages as they are left.
--   Stages     decode/stages.go, denseStage, sharedStage, expertStage and getDirectBlock. `enter` and
--              `leave` are the two critical sections of their loop, System lets any number of
--              goroutines take them in any order, and Callers makes each call in one piece.
--   Layer      decode/dispatch.go, layerForward. `ffn` is the part up to the label postFFN or the
--              error fallback, `finish_ffn` what follows; `disable` is what Plane.disable keeps.
--   Forward    decode/dispatch.go, forwardFromEmbeddingsWithHook and useDecodePlane. `Walk` holds the
--              variables of the loop over the layers.
--   Block      decode/dispatch.go, directBlockOutput from the leased slot on, syncDirectBlockState and
--              advanceDirectBlockCaches. A layer's external cache is its offset.
--   Plane      decode/plane.go, the counters of Stats but the durations, the record functions, disable,
--              markDirectBlockFallback and shouldUseDirectSpan, as an `Event` each.
--   Speculative  draft_model_darwin.go, argmaxFloat32, GenerateDraftWithTiming, embeddingForToken,
--              RewindDecodePosition, mergeDraftWithTargetGreedy and SpeculativeDecoder.Step.
--   Drafter    anedraftimpl/ane_draft_darwin.go, aneDraftDrafter and aneDraftReferenceRunner: `draft`,
--              `rewind_drafter`, `prefill` and `reset_drafter`. The draft model and the caches are
--              the operations of `Engine` and `Backend`, and Contract says what is asked of them.
--   DecodeState  draft_model_darwin.go, SnapshotDecodeState, RestoreDecodeState and
--              RestoreStatefulMILState, on the position and the state surfaces.
--   Spans      decode/plane.go, fullAttentionDenseOffsets, buildDirectSpans and
--              directSpanLayerCount.
--   Surface    surface_eval_plan_darwin.go, Write, WriteAt, ReadAt and Fill of IOSurfaceFloat32.
--   KvState    draft_kv_state_darwin.go, NewDraftKVSurfaceState, the operations of the state, and
--              SliceRoPERow.
--   Layout     compiled_layout_darwin.go and surface_layout_io_darwin.go: valid, layoutByteOffset,
--              the write loop, float32ToFP16 and fp16ToFloat32.
--   Strategy   anedraftimpl/ane_draft_strategy.go.
--   Text       what these use of Go's strings package. Prelude holds the shared names and lemmas.
-- Each part has its operations in its own file, its theorems in files below it, and concrete runs in
-- its Tests.
--
-- Conventions. Go's int is unbounded here, ℤ where its sign matters and ℕ where the code keeps it
-- from being negative; uint64 wraps, as written out in `next_seq` and `mul_uint64`. Calls of MLX,
-- of Metal and of the private frameworks are fields of the environment records: whether they
-- succeed is an argument. Mutexes make each critical section one step, and what other goroutines
-- do while `acquireSlot` waits for the device is the argument `others`. The stages of one call are
-- distinct. Timings, warnings and error texts are left out, and statistics outside Plane. Fuel:
-- `shift_up` has ten rounds, as a subnormal fraction below 1024 shows its leading bit after at
-- most ten shifts; `spans_from` has one round per layer, and each round passes a layer. In Stages
-- a builder answers with a stage or an error; in Layer and Forward an array is a value of any
-- type, and what the accelerator answers is only near the model's MLP or norm.
--
-- Not modelled: generation of MIL and espresso programs, the Objective-C and Metal bridges,
-- generated code, commands and benchmarks, which are glue or calls of the platform; and
-- the builders of stages, the key and value state that direct blocks copy, the combination of
-- experts, which are arguments here, how a drafter is loaded and compiled, the key and value state
-- on compiled layouts, evaluation plans, and the read loop of strided surfaces.
pub mod Prelude
pub mod Routing
pub mod Plane
pub mod Pool
pub mod Run
pub mod Runtime
pub mod Dispatch
pub mod Surface
pub mod Forward
pub mod KvState
pub mod Layer
pub mod Layout
pub mod Text
pub mod Block
pub mod DecodeState
pub mod Direct
pub mod Drafter
pub mod Speculative
pub mod Stages
pub mod Strategy
pub mod Spans
