-- ===== src/Fs.antt =====
-- The file system code under thix-0.3.7/fs: bitmaps and clusters of TFS, block
-- allocation, file descriptors and pipes.
pub mod Bitmap
pub mod Cluster
pub mod Block
pub mod Descriptor
pub mod Pipe
pub mod Links
pub mod Hash
pub mod Buffer
pub mod Inode
mod Tests
