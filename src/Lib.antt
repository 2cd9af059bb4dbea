-- ===== src/Lib.antt =====
-- Listeningway, a ReShade add-on that analyses the sound of the machine and gives it to shaders and
-- lights, in a model of its C++ sources.
--
-- The program. A capture source pushes interleaved samples into the frame ring. The DSP thread of the
-- audio system pops a chunk, runs the pipeline's stages over its frame, projects the frame into a
-- snapshot, publishes the snapshot through a seqlock, and gives the chunk back to the ring. Consumers
-- read the snapshot: the uniform publisher writes it to shaders, network consumers send it on. The
-- settings store hands out clamped settings under a version that the DSP thread compares. The boot
-- scheduler and the phases of the application build all this one step per rendered frame.
--
-- The files.
--   Prelude, Prelude/*: library names passed on, Boolean tests, lists over native numbers, integers.
--   Float, Float/Fixed: `float` and `double` as a parameter with the laws of IEEE comparison (NaN
--     included), and fixed-point numbers that meet the laws, for runs.
--   Ring, Ring/*: src/audio/ring/frame_ring.h. `claim` and `submit` are the two halves of `push`,
--     between which the other thread may run. The queue library is a parameter.
--   Snapshot, Snapshot/*: src/audio/snapshot/seqlock_snapshot.h, one word or counter access per step.
--   System, System/*: the state machine of src/audio/pipeline/audio_system.cpp (`start`, `stop`,
--     `switch_source`, the choice of the source).
--   Dsp/Loop, Dsp/Loop/*: `dsp_thread_main` of the same file, one turn of its loop.
--   Dsp/History, Dsp/History/*: its history rings, and their unrolling in
--     src/output/uniform_publisher.cpp.
--   Dsp/Pipeline, Dsp/Pipeline/*: src/audio/dsp/pipeline.{h,cpp} and i_dsp_stage.h.
--   Dsp/Frame: src/audio/dsp/analysis_frame.h and src/audio/snapshot/audio_snapshot.h.
--   Dsp/Stages, Dsp/Stages/*: the thirteen stages of src/audio/dsp/stages, and their composition in
--     src/app.cpp.
--   Dsp/Beat, Dsp/Beat/*: src/audio/dsp/beat/odf_csd, comb_tempo and beat_tracker, .h and .cpp.
--   Dsp/OdfBuffer, Dsp/OdfBuffer/*: src/audio/dsp/beat/odf_buffer.{h,cpp}.
--   Config/Settings, Config/Store, Config/Store/*: src/config/settings.h and store.{h,cpp}.
--   Output/Registry, Output/Registry/*: src/output/consumer_registry.{h,cpp}.
--   Output/Patterns, Output/Patterns/*: src/output/openrgb_patterns, a module for the shared helpers
--     and one for each kind of zone.
--   Output/Osc/Message, Output/Osc/Worker and below: src/output/osc_consumer.{h,cpp}, the framing of
--     float arrays, and the consumer's calls with the turns of its worker.
--   Boot, Boot/*: src/boot/scheduler.{h,cpp}. App, App/*: src/app.{h,cpp}.
--
-- Conventions. An object is a record and a method a function of it; what lies outside (devices, the
-- file, a consumer's effects) acts on a world `W` that the functions thread. A `std::optional`, a
-- pointer that may be null and a closure that may be empty are an `Option`. Counters of 64 bits wrap;
-- an `int` that only counts hops is a number without bound, which is faithful below 2^31.
-- Loops are structural recursion on their lists or on the number of rounds left, so no fuel is
-- chosen; `for_range` is the loop over a range of indices. A write out of an array's bounds would
-- change nothing and a read would give the default; the invariants keep the indices of the rings
-- inside.
--
-- Not modelled. The capture sources, the overlay, the log and the add-on's entry, which call the
-- platform only; the writing of shader variables in src/output/uniform_publisher.cpp, which calls
-- ReShade; the JSON tables of the settings' enumerations; the OpenRGB consumer around the patterns.
-- kiss_fft, tinyosc, sockets and the resolver are parameters. The seqlock's threads are taken as
-- sequentially consistent.
pub mod Prelude
pub mod Float
pub mod Config
pub mod Boot
pub mod Ring
pub mod Snapshot
pub mod System
pub mod Dsp
pub mod Output
pub mod App
