-- ===== src/Commands/Cmd.antt =====
-- The commands of the enumeration in inc/sharedgl.h that the model names.
use sharedgl.Prelude.{ℕ}

abbrev pub invalid : ℕ
invalid = 0

abbrev pub vp_upload : ℕ
vp_upload = 6

abbrev pub vp_null : ℕ
vp_null = 7

abbrev pub vp_upload_stay : ℕ
vp_upload_stay = 8

abbrev pub create_context : ℕ
create_context = 10

abbrev pub report_dims : ℕ
report_dims = 11

abbrev pub goodbye_world : ℕ
goodbye_world = 13

abbrev pub swap_buffers : ℕ
swap_buffers = 14

abbrev pub cullface : ℕ
cullface = 15

abbrev pub frontface : ℕ
frontface = 16

abbrev pub hint : ℕ
hint = 17

abbrev pub linewidth : ℕ
linewidth = 18

abbrev pub pointsize : ℕ
pointsize = 19

abbrev pub polygonmode : ℕ
polygonmode = 20

abbrev pub clear : ℕ
clear = 29

abbrev pub clearcolor : ℕ
clearcolor = 30

abbrev pub stencilmask : ℕ
stencilmask = 33

abbrev pub colormask : ℕ
colormask = 34

abbrev pub depthmask : ℕ
depthmask = 35

abbrev pub disable : ℕ
disable = 36

abbrev pub finish : ℕ
finish = 38

abbrev pub flush : ℕ
flush = 39

abbrev pub logicop : ℕ
logicop = 41

abbrev pub stencilfunc : ℕ
stencilfunc = 42

abbrev pub stencilop : ℕ
stencilop = 43

abbrev pub depthfunc : ℕ
depthfunc = 44

abbrev pub newlist : ℕ
newlist = 63

abbrev pub calllist : ℕ
calllist = 65

abbrev pub color3f : ℕ
color3f = 76

abbrev pub normal3f : ℕ
normal3f = 119

abbrev pub clipplane : ℕ
clipplane = 213

abbrev pub fogi : ℕ
fogi = 217

abbrev pub lightf : ℕ
lightf = 219

abbrev pub lighti : ℕ
lighti = 221

abbrev pub lightmodelf : ℕ
lightmodelf = 223

abbrev pub lightmodeli : ℕ
lightmodeli = 225

abbrev pub linestipple : ℕ
linestipple = 227

abbrev pub materialf : ℕ
materialf = 228

abbrev pub materiali : ℕ
materiali = 230

abbrev pub shademodel : ℕ
shademodel = 233

abbrev pub texenvf : ℕ
texenvf = 234

abbrev pub texenvi : ℕ
texenvi = 236

abbrev pub initnames : ℕ
initnames = 247

abbrev pub loadname : ℕ
loadname = 248

abbrev pub passthrough : ℕ
passthrough = 249

abbrev pub popname : ℕ
popname = 250

abbrev pub pushname : ℕ
pushname = 251

abbrev pub clearaccum : ℕ
clearaccum = 252

abbrev pub clearindex : ℕ
clearindex = 253

abbrev pub indexmask : ℕ
indexmask = 254

abbrev pub accum : ℕ
accum = 255

abbrev pub popattrib : ℕ
popattrib = 256

abbrev pub pushattrib : ℕ
pushattrib = 257

abbrev pub evalcoord2f : ℕ
evalcoord2f = 272

abbrev pub evalmesh1 : ℕ
evalmesh1 = 274

abbrev pub evalpoint1 : ℕ
evalpoint1 = 275

abbrev pub evalmesh2 : ℕ
evalmesh2 = 276

abbrev pub evalpoint2 : ℕ
evalpoint2 = 277

abbrev pub alphafunc : ℕ
alphafunc = 278

abbrev pub pixelzoom : ℕ
pixelzoom = 279

abbrev pub pixeltransferf : ℕ
pixeltransferf = 280

abbrev pub pixeltransferi : ℕ
pixeltransferi = 281

abbrev pub copypixels : ℕ
copypixels = 285

abbrev pub matrixmode : ℕ
matrixmode = 309

abbrev pub popmatrix : ℕ
popmatrix = 313

abbrev pub pushmatrix : ℕ
pushmatrix = 314

abbrev pub rotatef : ℕ
rotatef = 316

abbrev pub scalef : ℕ
scalef = 318

abbrev pub polygonoffset : ℕ
polygonoffset = 324

abbrev pub copyteximage1d : ℕ
copyteximage1d = 325

abbrev pub copyteximage2d : ℕ
copyteximage2d = 326

abbrev pub copytexsubimage1d : ℕ
copytexsubimage1d = 327

abbrev pub copytexsubimage2d : ℕ
copytexsubimage2d = 328

abbrev pub bindtexture : ℕ
bindtexture = 331

abbrev pub deletetextures : ℕ
deletetextures = 332

abbrev pub multitexcoord4f : ℕ
multitexcoord4f = 391

abbrev pub multitexcoord4i : ℕ
multitexcoord4i = 393

abbrev pub multitexcoord4s : ℕ
multitexcoord4s = 395

abbrev pub blendfuncseparate : ℕ
blendfuncseparate = 401

abbrev pub pointparameterf : ℕ
pointparameterf = 404

abbrev pub pointparameteri : ℕ
pointparameteri = 406

abbrev pub fogcoordf : ℕ
fogcoordf = 408

abbrev pub secondarycolor3f : ℕ
secondarycolor3f = 417

abbrev pub secondarycolor3i : ℕ
secondarycolor3i = 419

abbrev pub secondarycolor3s : ℕ
secondarycolor3s = 421

abbrev pub secondarycolor3ub : ℕ
secondarycolor3ub = 423

abbrev pub secondarycolor3ui : ℕ
secondarycolor3ui = 425

abbrev pub secondarycolor3us : ℕ
secondarycolor3us = 427

abbrev pub deletebuffers : ℕ
deletebuffers = 457

abbrev pub compileshader : ℕ
compileshader = 474

abbrev pub createprogram : ℕ
createprogram = 475

abbrev pub createshader : ℕ
createshader = 476

abbrev pub deleteprogram : ℕ
deleteprogram = 477

abbrev pub deleteshader : ℕ
deleteshader = 478

abbrev pub detachshader : ℕ
detachshader = 479

abbrev pub uniform2f : ℕ
uniform2f = 504

abbrev pub uniform3f : ℕ
uniform3f = 505

abbrev pub uniform4f : ℕ
uniform4f = 506

abbrev pub uniform1i : ℕ
uniform1i = 507

abbrev pub uniform2i : ℕ
uniform2i = 508

abbrev pub uniform3i : ℕ
uniform3i = 509

abbrev pub uniform4i : ℕ
uniform4i = 510

abbrev pub validateprogram : ℕ
validateprogram = 522

abbrev pub vertexattrib4ubv : ℕ
vertexattrib4ubv = 556

abbrev pub begintransformfeedback : ℕ
begintransformfeedback = 572

abbrev pub endtransformfeedback : ℕ
endtransformfeedback = 573

abbrev pub bindbufferrange : ℕ
bindbufferrange = 574

abbrev pub bindbufferbase : ℕ
bindbufferbase = 575

abbrev pub clampcolor : ℕ
clampcolor = 578

abbrev pub beginconditionalrender : ℕ
beginconditionalrender = 579

abbrev pub endconditionalrender : ℕ
endconditionalrender = 580

abbrev pub vertexattribi1i : ℕ
vertexattribi1i = 584

abbrev pub vertexattribi2i : ℕ
vertexattribi2i = 585

abbrev pub vertexattribi3i : ℕ
vertexattribi3i = 586

abbrev pub vertexattribi4i : ℕ
vertexattribi4i = 587

abbrev pub vertexattribi1ui : ℕ
vertexattribi1ui = 588

abbrev pub vertexattribi2ui : ℕ
vertexattribi2ui = 589

abbrev pub vertexattribi3ui : ℕ
vertexattribi3ui = 590

abbrev pub vertexattribi4ui : ℕ
vertexattribi4ui = 591

abbrev pub uniform1ui : ℕ
uniform1ui = 607

abbrev pub uniform2ui : ℕ
uniform2ui = 608

abbrev pub uniform3ui : ℕ
uniform3ui = 609

abbrev pub uniform4ui : ℕ
uniform4ui = 610

abbrev pub clearbufferfi : ℕ
clearbufferfi = 622

abbrev pub framebuffertexture1d : ℕ
framebuffertexture1d = 635

abbrev pub framebuffertexture2d : ℕ
framebuffertexture2d = 636

abbrev pub framebuffertexture3d : ℕ
framebuffertexture3d = 637

abbrev pub framebufferrenderbuffer : ℕ
framebufferrenderbuffer = 638

abbrev pub generatemipmap : ℕ
generatemipmap = 640

abbrev pub blitframebuffer : ℕ
blitframebuffer = 641

abbrev pub renderbufferstoragemultisample : ℕ
renderbufferstoragemultisample = 642

abbrev pub framebuffertexturelayer : ℕ
framebuffertexturelayer = 643

abbrev pub deletevertexarrays : ℕ
deletevertexarrays = 647

abbrev pub bindsampler : ℕ
bindsampler = 686

abbrev pub samplerparameteri : ℕ
samplerparameteri = 687

abbrev pub samplerparameterf : ℕ
samplerparameterf = 689

abbrev pub querycounter : ℕ
querycounter = 697

abbrev pub vertexattribdivisor : ℕ
vertexattribdivisor = 700

abbrev pub vertexattribp1ui : ℕ
vertexattribp1ui = 701

abbrev pub vertexattribp2ui : ℕ
vertexattribp2ui = 703

abbrev pub vertexattribp3ui : ℕ
vertexattribp3ui = 705

abbrev pub vertexattribp4ui : ℕ
vertexattribp4ui = 707

abbrev pub vertexp2ui : ℕ
vertexp2ui = 709

abbrev pub vertexp3ui : ℕ
vertexp3ui = 711

abbrev pub vertexp4ui : ℕ
vertexp4ui = 713

abbrev pub texcoordp1ui : ℕ
texcoordp1ui = 715

abbrev pub texcoordp2ui : ℕ
texcoordp2ui = 717

abbrev pub texcoordp3ui : ℕ
texcoordp3ui = 719

abbrev pub texcoordp4ui : ℕ
texcoordp4ui = 721

abbrev pub multitexcoordp1ui : ℕ
multitexcoordp1ui = 723

abbrev pub multitexcoordp2ui : ℕ
multitexcoordp2ui = 725

abbrev pub multitexcoordp3ui : ℕ
multitexcoordp3ui = 727

abbrev pub multitexcoordp4ui : ℕ
multitexcoordp4ui = 729

abbrev pub normalp3ui : ℕ
normalp3ui = 731

abbrev pub colorp3ui : ℕ
colorp3ui = 733

abbrev pub colorp4ui : ℕ
colorp4ui = 735

abbrev pub secondarycolorp3ui : ℕ
secondarycolorp3ui = 737

abbrev pub minsampleshading : ℕ
minsampleshading = 739

abbrev pub blendequationi : ℕ
blendequationi = 740

abbrev pub blendequationseparatei : ℕ
blendequationseparatei = 741

abbrev pub blendfunci : ℕ
blendfunci = 742

abbrev pub blendfuncseparatei : ℕ
blendfuncseparatei = 743

abbrev pub pausetransformfeedback : ℕ
pausetransformfeedback = 778

abbrev pub resumetransformfeedback : ℕ
resumetransformfeedback = 779

abbrev pub drawtransformfeedback : ℕ
drawtransformfeedback = 780

abbrev pub drawtransformfeedbackstream : ℕ
drawtransformfeedbackstream = 781

abbrev pub beginqueryindexed : ℕ
beginqueryindexed = 782

abbrev pub endqueryindexed : ℕ
endqueryindexed = 783

abbrev pub releaseshadercompiler : ℕ
releaseshadercompiler = 785

abbrev pub depthrangef : ℕ
depthrangef = 788

abbrev pub cleardepthf : ℕ
cleardepthf = 789

abbrev pub programparameteri : ℕ
programparameteri = 792

abbrev pub useprogramstages : ℕ
useprogramstages = 793

abbrev pub activeshaderprogram : ℕ
activeshaderprogram = 794

abbrev pub bindprogrampipeline : ℕ
bindprogrampipeline = 796

abbrev pub bindimagetexture : ℕ
bindimagetexture = 878

abbrev pub memorybarrier : ℕ
memorybarrier = 879

abbrev pub texstorage1d : ℕ
texstorage1d = 880

abbrev pub texstorage2d : ℕ
texstorage2d = 881

abbrev pub texstorage3d : ℕ
texstorage3d = 882

abbrev pub drawtransformfeedbackinstanced : ℕ
drawtransformfeedbackinstanced = 883

abbrev pub drawtransformfeedbackstreaminstanced : ℕ
drawtransformfeedbackstreaminstanced = 884

abbrev pub dispatchcompute : ℕ
dispatchcompute = 887

abbrev pub dispatchcomputeindirect : ℕ
dispatchcomputeindirect = 888

abbrev pub copyimagesubdata : ℕ
copyimagesubdata = 889

abbrev pub framebufferparameteri : ℕ
framebufferparameteri = 890

abbrev pub invalidatetexsubimage : ℕ
invalidatetexsubimage = 893

abbrev pub invalidateteximage : ℕ
invalidateteximage = 894

abbrev pub invalidatebuffersubdata : ℕ
invalidatebuffersubdata = 895

abbrev pub invalidatebufferdata : ℕ
invalidatebufferdata = 896

abbrev pub shaderstorageblockbinding : ℕ
shaderstorageblockbinding = 907

abbrev pub texbufferrange : ℕ
texbufferrange = 908

abbrev pub texstorage2dmultisample : ℕ
texstorage2dmultisample = 909

abbrev pub texstorage3dmultisample : ℕ
texstorage3dmultisample = 910

abbrev pub textureview : ℕ
textureview = 911

abbrev pub vertexattribformat : ℕ
vertexattribformat = 913

abbrev pub vertexattribiformat : ℕ
vertexattribiformat = 914

abbrev pub vertexattriblformat : ℕ
vertexattriblformat = 915

abbrev pub vertexattribbinding : ℕ
vertexattribbinding = 916

abbrev pub vertexbindingdivisor : ℕ
vertexbindingdivisor = 917

abbrev pub popdebuggroup : ℕ
popdebuggroup = 923

abbrev pub clipcontrol : ℕ
clipcontrol = 937

abbrev pub transformfeedbackbufferbase : ℕ
transformfeedbackbufferbase = 939

abbrev pub transformfeedbackbufferrange : ℕ
transformfeedbackbufferrange = 940

abbrev pub copynamedbuffersubdata : ℕ
copynamedbuffersubdata = 948

abbrev pub namedframebufferrenderbuffer : ℕ
namedframebufferrenderbuffer = 960

abbrev pub namedframebufferparameteri : ℕ
namedframebufferparameteri = 961

abbrev pub namedframebuffertexture : ℕ
namedframebuffertexture = 962

abbrev pub namedframebuffertexturelayer : ℕ
namedframebuffertexturelayer = 963

abbrev pub namedframebufferdrawbuffer : ℕ
namedframebufferdrawbuffer = 964

abbrev pub namedframebufferreadbuffer : ℕ
namedframebufferreadbuffer = 966

abbrev pub clearnamedframebufferfi : ℕ
clearnamedframebufferfi = 972

abbrev pub blitnamedframebuffer : ℕ
blitnamedframebuffer = 973

abbrev pub namedrenderbufferstorage : ℕ
namedrenderbufferstorage = 978

abbrev pub namedrenderbufferstoragemultisample : ℕ
namedrenderbufferstoragemultisample = 979

abbrev pub texturebuffer : ℕ
texturebuffer = 982

abbrev pub texturebufferrange : ℕ
texturebufferrange = 983

abbrev pub texturestorage1d : ℕ
texturestorage1d = 984

abbrev pub texturestorage2d : ℕ
texturestorage2d = 985

abbrev pub texturestorage3d : ℕ
texturestorage3d = 986

abbrev pub texturestorage2dmultisample : ℕ
texturestorage2dmultisample = 987

abbrev pub texturestorage3dmultisample : ℕ
texturestorage3dmultisample = 988

abbrev pub copytexturesubimage1d : ℕ
copytexturesubimage1d = 995

abbrev pub copytexturesubimage2d : ℕ
copytexturesubimage2d = 996

abbrev pub copytexturesubimage3d : ℕ
copytexturesubimage3d = 997

abbrev pub textureparameterf : ℕ
textureparameterf = 998

abbrev pub textureparameteri : ℕ
textureparameteri = 1000

abbrev pub generatetexturemipmap : ℕ
generatetexturemipmap = 1004

abbrev pub bindtextureunit : ℕ
bindtextureunit = 1005

abbrev pub vertexarrayattribbinding : ℕ
vertexarrayattribbinding = 1020

abbrev pub vertexarrayattribformat : ℕ
vertexarrayattribformat = 1021

abbrev pub vertexarrayattribiformat : ℕ
vertexarrayattribiformat = 1022

abbrev pub vertexarrayattriblformat : ℕ
vertexarrayattriblformat = 1023

abbrev pub vertexarraybindingdivisor : ℕ
vertexarraybindingdivisor = 1024

abbrev pub getquerybufferobjecti64v : ℕ
getquerybufferobjecti64v = 1031

abbrev pub getquerybufferobjectiv : ℕ
getquerybufferobjectiv = 1032

abbrev pub getquerybufferobjectui64v : ℕ
getquerybufferobjectui64v = 1033

abbrev pub getquerybufferobjectuiv : ℕ
getquerybufferobjectuiv = 1034

abbrev pub memorybarrierbyregion : ℕ
memorybarrierbyregion = 1035

abbrev pub max : ℕ
max = 1096

abbrev pub uniformmatrix2x3fv : ℕ
uniformmatrix2x3fv = 560

abbrev pub uniformmatrix3x2fv : ℕ
uniformmatrix3x2fv = 561

abbrev pub uniformmatrix2x4fv : ℕ
uniformmatrix2x4fv = 562

abbrev pub uniformmatrix4x2fv : ℕ
uniformmatrix4x2fv = 563

abbrev pub uniformmatrix3x4fv : ℕ
uniformmatrix3x4fv = 564

abbrev pub uniformmatrix4x3fv : ℕ
uniformmatrix4x3fv = 565

abbrev pub compressedtexsubimage3d : ℕ
compressedtexsubimage3d = 360

abbrev pub compressedtexsubimage2d : ℕ
compressedtexsubimage2d = 361

abbrev pub compressedtexsubimage1d : ℕ
compressedtexsubimage1d = 362

abbrev pub teximage1d : ℕ
teximage1d = 26

abbrev pub texsubimage1d : ℕ
texsubimage1d = 329

abbrev pub teximage3d : ℕ
teximage3d = 352

abbrev pub texsubimage3d : ℕ
texsubimage3d = 353

abbrev pub teximage2d : ℕ
teximage2d = 27

abbrev pub texsubimage2d : ℕ
texsubimage2d = 330
