-- ===== src/Commands.antt =====
-- The commands of the protocol: their numbers, and for each group of GL calls what the functions of
-- src/client/glimpl.c push and what the switch of src/server/processor.c reads.
pub mod Cmd
pub mod Decode
pub mod Objects
pub mod Stencil
pub mod Lighting
pub mod Names
pub mod Evaluators
pub mod Uniforms
pub mod Feedback
pub mod Framebuffers
pub mod Samplers
pub mod Packed
pub mod Pipelines
pub mod Textures
pub mod Images
pub mod Storages
pub mod Attribs
pub mod NamedTargets
pub mod Barriers
pub mod Rasters
pub mod Matrices
pub mod Scales
pub mod Coordinates
pub mod Secondaries
pub mod Texels
pub mod Values
pub mod SubImages
