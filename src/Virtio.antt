-- ===== src/Virtio.antt =====
-- kernel/drivers/virtio: the split virtqueue.
pub mod Queue
