-- ===== src/Dsp.antt =====
-- src/audio/dsp: the pipeline, its stages, and the history that the snapshot carries.
pub mod Frame
pub mod Pipeline
pub mod History
pub mod Loop
pub mod Stages
pub mod OdfBuffer
pub mod Beat
