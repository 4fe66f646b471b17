-- ===== src/Tests.antt =====
-- Runs of the models on concrete inputs, and the theorems applied to such inputs.
mod Login
mod Playback
mod Merging
mod Rules
mod Watching
mod Queueing
mod Applying
mod Activity
mod Naming
mod Streaming
mod Replacing
mod Signing
mod Subtitles
mod Sessions
mod Recognizing
mod Categories
mod Predicting
mod Reconciling
